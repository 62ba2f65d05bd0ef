-- ===== src/Rpc/Client/Reads.antt =====
-- What one `recv` and `readPayload` of rpc/pbrpc_client_core.cpp take from the stream of bytes,
-- however it is cut.
use ostinato.Base.{
  ℕ, zero, suc, ◌+◌, ◌-◌, ◌*◌, ◌≤◌, ◌<◌, ◌≡◌, ◌⊎◌, inl, inr, refl, ap, sym, subst, ◌∙◌, Bool, true,
  false, List, [], ◌∷◌, ◌++◌, leb, ◌==◌, if_cases, length, take, drop, min, arith, take-append-drop,
  append_assoc, append-nil, length-append, length-drop, length-take,
}
use ostinato.Client.Session.{Answer, fails, answers}
use ostinato.Rpc.Client.{
  Event, arrives, accepts, again, breaks, hangs_up, times_out, canceled_by, disconnected_by,
  RpcConnection, receive_some, coming, following, consume, read_payload,
}

-- Nothing but bytes, and waits that are begun again.
unfoldable pub is_quiet : List Event → Bool
is_quiet [] = true
is_quiet (arrives (b ∷ bs) ∷ es) = is_quiet es
is_quiet (again ∷ es) = is_quiet es
is_quiet (e ∷ es) = false

abbrev pub stream : RpcConnection → List ℕ
stream c = c.pending ++ coming c.events

-- What reading does not change.
abbrev pub side : RpcConnection → Bool × List ℕ
side c = (c.attached, c.sent)

-- Some bytes were received, and the rest is still to come.
pub record Received (wanted : ℕ) (es : List Event) (c : RpcConnection)
    (t : RpcConnection × Answer (List ℕ)) : Type 0 where
  pub input : List ℕ
  pub answer : t.1 ≡ answers input
  pub pending : t.0.pending ≡ c.pending
  pub same_side : side t.0 ≡ side c
  pub quiet : is_quiet t.0.events ≡ true
  pub all : input ++ coming t.0.events ≡ coming es
  pub sooner :
      (length t.0.events < length es) ⊎ ((length t.0.events ≡ length es) × (length input ≡ wanted))

cut : (wanted : ℕ) (xs : List ℕ) → leb (length xs) wanted ≡ false → 0 < length (drop wanted xs)
cut wanted xs e = ground (arith, length-drop wanted xs)

taken :
    (wanted : ℕ) (xs : List ℕ) → leb (length xs) wanted ≡ false → length (take wanted xs) ≡ wanted
taken wanted xs e = ground (arith, length-take wanted xs)

quiet_rest :
    (xs : List ℕ) (es : List Event)
    → 0 < length xs
    → is_quiet es ≡ true
    → is_quiet (arrives xs ∷ es) ≡ true
unfolding is_quiet
quiet_rest [] es h q = absurd (omega arith)
quiet_rest (x ∷ xs) es h q = q

pub receive_some-Received :
    (wanted : ℕ) (es : List Event) (c : RpcConnection)
    → is_quiet es ≡ true
    → 0 < length (coming es)
    → Received wanted es c (receive_some wanted es c)
unfolding receive_some is_quiet coming
receive_some-Received wanted [] c q h = absurd (omega arith)
receive_some-Received wanted (arrives [] ∷ es) c q h = absurd cc
receive_some-Received wanted (arrives (b ∷ bs) ∷ es) c q h =
    if_cases (Received wanted (arrives (b ∷ bs) ∷ es) c) (leb (length (b ∷ bs)) wanted) _ _
      (λ e. record {
        input = b ∷ bs;
        answer = refl;
        pending = refl;
        same_side = refl;
        quiet = q;
        all = refl;
        sooner = inl (omega arith);
      })
      (λ e. record {
        input = take wanted (b ∷ bs);
        answer = refl;
        pending = refl;
        same_side = refl;
        quiet = quiet_rest (drop wanted (b ∷ bs)) es (cut wanted (b ∷ bs) e) q;
        all =
            sym (append_assoc (take wanted (b ∷ bs)) (drop wanted (b ∷ bs)) (coming es))
            ∙ ap (λ (xs : List ℕ). xs ++ coming es) (take-append-drop wanted (b ∷ bs));
        sooner = inr (refl, taken wanted (b ∷ bs) e);
      })
receive_some-Received wanted (again ∷ es) c q h = record {
  input = [];
  answer = refl;
  pending = refl;
  same_side = refl;
  quiet = q;
  all = refl;
  sooner = inl (omega arith);
}
receive_some-Received wanted (accepts n ∷ es) c q h = absurd cc
receive_some-Received wanted (breaks text ∷ es) c q h = absurd cc
receive_some-Received wanted (hangs_up ∷ es) c q h = absurd cc
receive_some-Received wanted (times_out ∷ es) c q h = absurd cc
receive_some-Received wanted (canceled_by ∷ es) c q h = absurd cc
receive_some-Received wanted (disconnected_by ∷ es) c q h = absurd cc

-- A step that reads gave this and left the rest of the stream.
pub record Left {A : Type 0} (a : A) (xs : List ℕ) (live : Bool × List ℕ)
    (t : RpcConnection × Answer A) : Type 0 where
  pub answer : t.1 ≡ answers a
  pub rest : stream t.0 ≡ xs
  pub quiet : is_quiet t.0.events ≡ true
  pub same_side : side t.0 ≡ live

pub Left-same :
    {A : Type 0} (a b : A) (xs ys : List ℕ) (live : Bool × List ℕ) (t : RpcConnection × Answer A)
    → a ≡ b
    → xs ≡ ys
    → Left a xs live t
    → Left b ys live t
Left-same a b xs ys live t e f h = record {
  answer = h.answer ∙ ap answers e;
  rest = h.rest ∙ f;
  quiet = h.quiet;
  same_side = h.same_side;
}

pub following_answers :
    {A B : Type 0} (t : RpcConnection × Answer A) (a : A)
    (next : RpcConnection → A → RpcConnection × Answer B)
    → t.1 ≡ answers a
    → following t next ≡ next t.0 a
unfolding following
following_answers (c, fails f) a next e = absurd cc
following_answers (c, answers b) a next e = ap (λ (x : Answer _). following (c, x) next) e

-- What was pending, and the rest from what is to come.
take-split :
    (n : ℕ) (xs ys : List ℕ)
    → take n xs ++ take (n - length xs) (drop n xs ++ ys) ≡ take n (xs ++ ys)
take-split zero xs ys =
    ap {A = ℕ} (λ n. take n (xs ++ ys)) {x = 0 - length xs} {y = 0} (omega arith)
take-split (suc n) [] ys = ap {A = ℕ} (λ k. take k ys) {x = suc n - 0} {y = suc n} (omega arith)
take-split (suc n) (x ∷ xs) ys =
    ap {A = ℕ} (λ k. x ∷ (take n xs ++ take k (drop n xs ++ ys))) {x = suc n - suc (length xs)}
      {y = n - length xs} (omega arith)
    ∙ ap (λ (zs : List ℕ). x ∷ zs) (take-split n xs ys)

drop-split : (n : ℕ) (xs ys : List ℕ) → drop (n - length xs) (drop n xs ++ ys) ≡ drop n (xs ++ ys)
drop-split zero xs ys =
    ap {A = ℕ} (λ n. drop n (xs ++ ys)) {x = 0 - length xs} {y = 0} (omega arith)
drop-split (suc n) [] ys = ap {A = ℕ} (λ k. drop k ys) {x = suc n - 0} {y = suc n} (omega arith)
drop-split (suc n) (x ∷ xs) ys =
    ap {A = ℕ} (λ k. drop k (drop n xs ++ ys)) {x = suc n - suc (length xs)} {y = n - length xs}
      (omega arith)
    ∙ drop-split n xs ys

none_pending-stream : (xs ys : List ℕ) → (length xs == 0) ≡ true → ys ≡ xs ++ ys
none_pending-stream [] ys h = refl
none_pending-stream (x ∷ xs) ys h = absurd (ground arith)

none_wanted-Left :
    (remaining : ℕ) (payload : List ℕ) (c : RpcConnection)
    → is_quiet c.events ≡ true
    → remaining ≡ 0
    → Left
        (payload ++ take remaining (stream c))
        (drop remaining (stream c))
        (side c)
        (c, answers payload)
none_wanted-Left remaining payload c q e =
    Left-same payload _ (stream c) _ (side c) _
      (sym (ap (λ (n : ℕ). payload ++ take n (stream c)) e ∙ append-nil payload))
      (sym (ap (λ (n : ℕ). drop n (stream c)) e))
      (record { answer = refl; rest = refl; quiet = q; same_side = refl })

pub read_payload-Left :
    (fuel remaining : ℕ) (payload : List ℕ) (c : RpcConnection)
    → is_quiet c.events ≡ true
    → remaining ≤ length (stream c)
    → 2 * remaining + length c.events ≤ fuel + min 1 (length c.pending)
    → Left
        (payload ++ take remaining (stream c))
        (drop remaining (stream c))
        (side c)
        (read_payload fuel remaining payload c)
unfolding read_payload consume
read_payload-Left zero remaining payload c q h k =
    if_cases (Left (payload ++ take remaining (stream c)) (drop remaining (stream c)) (side c))
      (remaining == 0) _ _ (λ e. none_wanted-Left remaining payload c q (ground arith))
      (λ e. absurd (ground arith))
read_payload-Left (suc fuel) remaining payload c q h k =
    let Ends = Left (payload ++ take remaining (stream c)) (drop remaining (stream c)) (side c) in
    let t = receive_some (min remaining 65536) c.events c in
    if_cases Ends (remaining == 0) _ _ (λ e. none_wanted-Left remaining payload c q (ground arith))
      λ e.
        if_cases Ends (length c.pending == 0)
          (following t
            (λ d input. read_payload fuel remaining payload (record d { pending = input })))
          _
          (λ none_pending.
            let got =
              receive_some-Received (min remaining 65536) c.events c q
                (ground (arith, length-append c.pending (coming c.events))) in
            let d : RpcConnection = record t.0 { pending = got.input } in
            let same : stream d ≡ stream c =
              got.all ∙ none_pending-stream c.pending (coming c.events) none_pending in
            subst Ends (sym (following_answers t got.input _ got.answer)) (
              Left-same _ _ _ _ (side c) _ (ap (λ (xs : List ℕ). payload ++ take remaining xs) same)
                (ap (drop remaining) same)
                (subst
                  (λ (live : Bool × List ℕ).
                    Left (payload ++ take remaining (stream d)) (drop remaining (stream d)) live
                      (read_payload fuel remaining payload d))
                  got.same_side
                  (read_payload-Left fuel remaining payload d got.quiet
                    (subst (λ (xs : List ℕ). remaining ≤ length xs) (sym same) h)
                    (ground (arith, got.sooner))))))
          (λ some_pending.
            let d = consume remaining c in
            Left-same _ _ _ _ (side c) _
              (append_assoc payload _ _
                ∙ ap (λ (xs : List ℕ). payload ++ xs)
                    (take-split remaining c.pending (coming c.events)))
              (drop-split remaining c.pending (coming c.events))
              (read_payload-Left fuel (remaining - length c.pending)
                (payload ++ take remaining c.pending) d q
                (ground (
                  arith,
                  length-append (drop remaining c.pending) (coming c.events),
                  length-append c.pending (coming c.events),
                  length-drop remaining c.pending,
                ))
                (ground arith)))
