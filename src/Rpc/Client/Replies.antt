-- ===== src/Rpc/Client/Replies.antt =====
-- `TcpRpcClient::call` of rpc/pbrpc_client_core.cpp with a server that sends notifications and the
-- response.
use ostinato.Base.{
  ℕ, zero, suc, ◌+◌, ◌*◌, ◌^◌, ◌≤◌, ◌<◌, ◌≡◌, inl, refl, ap, sym, subst, ◌∙◌, Bool, true, false,
  some, List, [], ◌∷◌, ◌++◌, ◌==◌, All, length, take, drop, arith, append_assoc, append-nil,
  length-append, map, take-append_self, drop-append_self,
}
use ostinato.Rpc.Wire.{
  Header, Frame, Encoded, is_valid_message_type, bytes, wire, throws, encode_frame, encode_header,
  read_header, response, notification, binary_blob, error,
}
use ostinato.Rpc.Wire.Codec.{read_header-encode_header, length-encode_header}
use ostinato.Rpc.Wire.Frames.{IsFrame, Sends, nothing, send, encode_frame-wire}
use ostinato.Client.Session.{Answer, fails, answers}
use ostinato.Rpc.Client.{
  RpcConnection, Method, replied, Turn, ends, notes, Called, next_header, read_payload, body_read,
  header_read, turn, after_turn, parsed, call_loop,
}
use ostinato.Rpc.Client.Reads.{is_quiet, stream, side, read_payload-Left}
use ostinato.Rpc.Client.Headers.{next_header-Left}

unfoldable pub wire_of : Frame → List ℕ
wire_of f = encode_header f.header.type f.header.method f.header.length ++ f.payload

pub wire-IsFrame :
    (max : ℕ) (f : Frame) (w : List ℕ)
    → IsFrame max f
    → encode_frame f.header.type f.header.method (bytes f.payload) ≡ wire w
    → w ≡ wire_of f
unfolding wire_of
wire-IsFrame max f w is e =
    ap (λ (x : Encoded). elim x [ wire v ↦ v | throws t ↦ [] ])
      (sym e
        ∙ encode_frame-wire f.header.type f.header.method f.payload
            (subst (λ (n : ℕ). n < 2 ^ 32) is.sized is.fits.2))
    ∙ ap (λ (n : ℕ). encode_header f.header.type f.header.method n ++ f.payload) (sym is.sized)

module _ {A : Type 0} (max : ℕ) (method : Method A) where
  -- A frame that is no blob was taken from the stream.
  record Took (f : Frame) (rest : List ℕ) (c : RpcConnection) (t : RpcConnection × Turn A)
      : Type 0 where
    after : RpcConnection
    read : t ≡ body_read max method f.header (after, answers f.payload)
    rest_left : stream after ≡ rest
    quiet : is_quiet after.events ≡ true
    same_side : side after ≡ side c

  header_read_answers :
      (t : RpcConnection × Answer Header) (h : Header)
      → t.1 ≡ answers h
      → (h.type == binary_blob) ≡ false
      → header_read max method t
        ≡ body_read max method h (read_payload (2 * h.length + length t.0.events) h.length [] t.0)
  unfolding header_read
  header_read_answers (c, fails f) h e k = absurd cc
  header_read_answers (c, answers g) h e k =
      ap (λ (x : Answer Header). header_read max method (c, x)) e ∙ rw k refl

  body_read_answers :
      (h : Header) (t : RpcConnection × Answer (List ℕ)) (payload : List ℕ)
      → t.1 ≡ answers payload
      → body_read max method h t ≡ body_read max method h (t.0, answers payload)
  body_read_answers h (c, x) payload e =
      ap (λ (y : Answer (List ℕ)). body_read max method h (c, y)) e

  turn-Took :
      (f : Frame) (w rest : List ℕ) (c : RpcConnection)
      → IsFrame max f
      → encode_frame f.header.type f.header.method (bytes f.payload) ≡ wire w
      → (f.header.type == binary_blob) ≡ false
      → is_quiet c.events ≡ true
      → stream c ≡ w ++ rest
      → Took f rest c (turn max method c)
  unfolding turn wire_of
  turn-Took f w rest c is e kind q s =
      let all : stream c
          ≡ encode_header f.header.type f.header.method f.header.length ++ (f.payload ++ rest) =
        s
        ∙ ap (λ (xs : List ℕ). xs ++ rest) (wire-IsFrame max f w is e)
        ∙ append_assoc (encode_header f.header.type f.header.method f.header.length) f.payload
            rest in
      let same : read_header (stream c) ≡ f.header =
        ap read_header all ∙ read_header-encode_header f.header (f.payload ++ rest) is.fits in
      let eight = length-encode_header f.header.type f.header.method f.header.length in
      let h =
        next_header-Left (suc (suc (length c.events))) max c q
          (subst (λ (xs : List ℕ). 8 ≤ length xs) (sym all)
            (ground (
              arith,
              eight,
              length-append (encode_header f.header.type f.header.method f.header.length)
                  (f.payload ++ rest),
            )))
          (inl (omega arith))
          (subst (λ (g : Header). is_valid_message_type g.type ≡ true) (sym same) is.valid)
          (subst (λ (g : Header). g.length ≤ max) (sym same) is.within) in
      let t = next_header (suc (suc (length c.events))) max c in
      let left : stream t.0 ≡ f.payload ++ rest =
        h.rest ∙ ap (drop 8) all ∙ drop-append_self 8 _ (f.payload ++ rest) eight in
      let p =
        read_payload-Left (2 * f.header.length + length t.0.events) f.header.length [] t.0 h.quiet
          (subst (λ (xs : List ℕ). f.header.length ≤ length xs) (sym left)
            (ground (arith, is.sized, length-append f.payload rest)))
          (omega arith) in
      record {
        after = (read_payload (2 * f.header.length + length t.0.events) f.header.length [] t.0).0;
        read =
            header_read_answers t f.header (h.answer ∙ ap answers same) kind
            ∙ body_read_answers f.header _ f.payload (
                p.answer
                ∙ ap answers (
                    ap (take f.header.length) left
                    ∙ take-append_self f.header.length f.payload rest (sym is.sized)));
        rest_left =
            p.rest
            ∙ ap (drop f.header.length) left
            ∙ drop-append_self f.header.length f.payload rest (sym is.sized);
        quiet = p.quiet;
        same_side = p.same_side ∙ h.same_side;
      }

  -- How the loop ends, with what is left of the stream.
  pub record Finished (ns : List (ℕ × List ℕ)) (a : A) (xs : List ℕ) (live : Bool × List ℕ)
      (t : Called max method) : Type 0 where
    pub notices : t.1 ≡ ns
    pub answer : t.2 ≡ answers (replied a)
    pub rest : stream t.0 ≡ xs
    pub same_side : side t.0 ≡ live

  abbrev pub note_of : Frame → ℕ × List ℕ
  note_of f = (f.header.method, f.payload)

  -- A frame that is the response of the call.
  pub record Responds (f : Frame) (a : A) : Type 0 where
    pub frame : IsFrame max f
    pub type : f.header.type ≡ response
    pub method_index : f.header.method ≡ method.index
    pub parses : method.parse f.payload ≡ some a

  abbrev pub Notifies : Frame → Type 0
  Notifies f = IsFrame max f × (f.header.type ≡ notification)

  after_turn_by :
      (t u : RpcConnection × Turn A) (ns : List (ℕ × List ℕ))
      (next : RpcConnection → List (ℕ × List ℕ) → Called max method)
      → t ≡ u
      → after_turn max method t ns next ≡ after_turn max method u ns next
  after_turn_by t u ns next e =
      ap (λ (x : RpcConnection × Turn A). after_turn max method x ns next) e

  response-read :
      (f : Frame) (a : A) (c : RpcConnection)
      → Responds f a
      → body_read max method f.header (c, answers f.payload) ≡ (c, ends (answers (replied a)))
  unfolding body_read parsed
  response-read f a c r =
      let e1 : (f.header.type == notification) ≡ false = ground (arith, r.type) in
      let e2 : (f.header.method == method.index) ≡ true = ground (arith, r.method_index) in
      let e3 : (f.header.type == error) ≡ false = ground (arith, r.type) in
      let e4 : (f.header.type == response) ≡ true = ground (arith, r.type) in
      rw (e1, e2, e3, e4, r.parses) refl

  note-read :
      (f : Frame) (c : RpcConnection)
      → f.header.type ≡ notification
      → body_read max method f.header (c, answers f.payload) ≡ (c, notes (note_of f))
  unfolding body_read
  note-read f c e =
      let e1 : (f.header.type == notification) ≡ true = ground (arith, e) in rw e1 refl

  pub call_loop-Finished :
      (fuel : ℕ) (ns : List (ℕ × List ℕ)) {fs : List Frame} {ws : List ℕ} (f : Frame)
      (w rest : List ℕ) (a : A) (c : RpcConnection)
      → length fs < fuel
      → Sends fs ws
      → All Notifies fs
      → Responds f a
      → encode_frame f.header.type f.header.method (bytes f.payload) ≡ wire w
      → is_quiet c.events ≡ true
      → stream c ≡ ws ++ (w ++ rest)
      → Finished (ns ++ map note_of fs) a rest (side c) (call_loop max method fuel ns c)
  unfolding call_loop after_turn
  call_loop-Finished zero ns f w rest a c k sends all r e q s = absurd (omega arith)
  call_loop-Finished (suc fuel) ns f w rest a c k nothing all r e q s =
      let next =
        λ (d : RpcConnection) (more : List (ℕ × List ℕ)). call_loop max method fuel more d in
      let took = turn-Took f w rest c r.frame e (ground (arith, r.type)) q s in
      subst (Finished (ns ++ []) a rest (side c))
        (sym (after_turn_by _ _ ns next (took.read ∙ response-read f a took.after r)))
        (record {
          notices = sym (append-nil ns);
          answer = refl;
          rest = took.rest_left;
          same_side = took.same_side;
        })
  call_loop-Finished (suc fuel) ns f w rest a c k (send g v {fs = gs} {ws = vs} ge sends) all r e q
        s =
      let next =
        λ (d : RpcConnection) (more : List (ℕ × List ℕ)). call_loop max method fuel more d in
      let took =
        turn-Took g v (vs ++ (w ++ rest)) c all.0.0 ge (ground (arith, all.0.1)) q
          (s ∙ append_assoc v vs (w ++ rest)) in
      subst (Finished (ns ++ (note_of g ∷ map note_of gs)) a rest (side c))
        (sym (after_turn_by _ _ ns next (took.read ∙ note-read g took.after all.0.1)))
        (subst
          (λ (all_notes : List (ℕ × List ℕ)).
            Finished all_notes a rest (side c) (next took.after (ns ++ note_of g ∷ [])))
          (append_assoc ns (note_of g ∷ []) (map note_of gs))
          (subst
            (λ (live : Bool × List ℕ).
              Finished ((ns ++ note_of g ∷ []) ++ map note_of gs) a rest live
                (next took.after (ns ++ note_of g ∷ [])))
            took.same_side
            (call_loop-Finished fuel (ns ++ note_of g ∷ []) f w rest a took.after (omega arith)
              sends all.1 r e took.quiet took.rest_left)))
