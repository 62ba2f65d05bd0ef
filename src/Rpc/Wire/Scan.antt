-- ===== src/Rpc/Wire/Scan.antt =====
-- What a stream of bytes holds, as a relation, and `FrameParser::parse` as its implementation.
use Prim.Native.String.{String}
use ostinato.Base.{
  ℕ, zero, suc, ◌+◌, ◌-◌, ◌≤◌, ◌<◌, ◌≡◌, inl, inr, refl, sym, subst, ap, ◌∙◌, true, false, Option,
  none, some, List, [], ◌∷◌, ◌++◌, append-nil, append_assoc, arith, ltb, Bool-cases, length, take,
  drop, drop-drop, length-drop, ltb→lt, ltb→le,
}
use ostinato.Rpc.Wire.{
  Frame, FrameParser, is_valid_message_type, read_header, fail, push_back, frame_at, parse_loop,
  header_size,
}

-- The frame that the bytes begin with.
abbrev pub first_frame : List ℕ → Frame
first_frame b = record {
  header = read_header b;
  payload = take (read_header b).length (drop header_size b);
}

-- The bytes hold these frames, one after the other, and then a rest that is not yet a frame
-- (`none`) or that can be none (`some text`).
pub data Scan (max : ℕ) : List ℕ → List Frame → List ℕ → Option String → Type 0 where
  short : (b : List ℕ) → length b < 8 → Scan max b [] b none
  bad_type :
      (b : List ℕ)
      → 8 ≤ length b
      → is_valid_message_type (read_header b).type ≡ false
      → Scan max b [] b (some "invalid RPC message type")
  too_long :
      (b : List ℕ)
      → 8 ≤ length b
      → is_valid_message_type (read_header b).type ≡ true
      → max < (read_header b).length
      → Scan max b [] b (some "RPC payload exceeds configured maximum")
  partial :
      (b : List ℕ)
      → 8 ≤ length b
      → is_valid_message_type (read_header b).type ≡ true
      → (read_header b).length ≤ max
      → length b < 8 + (read_header b).length
      → Scan max b [] b none
  frame :
      (b : List ℕ) {fs : List Frame} {r : List ℕ} {v : Option String}
      → is_valid_message_type (read_header b).type ≡ true
      → (read_header b).length ≤ max
      → 8 + (read_header b).length ≤ length b
      → Scan max (drop (8 + (read_header b).length) b) fs r v
      → Scan max b (first_frame b ∷ fs) r v

-- The parser after it took these frames out and came to this verdict.
unfoldable pub outcome : FrameParser → List Frame → Option String → FrameParser
unfolding fail
outcome p fs none = record p { frames = p.frames ++ fs }
outcome p fs (some text) = fail (record p { frames = p.frames ++ fs }) text

pub record Parsed (p : FrameParser) (consumed : ℕ) (result : FrameParser × ℕ) : Type 0 where
  pub fs : List Frame
  pub verdict : Option String
  pub scan : Scan p.max_payload (drop consumed p.buffer) fs (drop result.1 p.buffer) verdict
  pub state : result.0 ≡ outcome p fs verdict

outcome_same : (p : FrameParser) → outcome p [] none ≡ p
unfolding outcome
outcome_same p = ground (arith, append-nil p.frames)

outcome-fail : (p : FrameParser) (text : String) → outcome p [] (some text) ≡ fail p text
unfolding outcome
outcome-fail p text = rw append-nil refl

Parsed-stop :
    (p : FrameParser) (c : ℕ)
    → Scan p.max_payload (drop c p.buffer) [] (drop c p.buffer) none
    → Parsed p c (p, c)
Parsed-stop p c s = record { fs = []; verdict = none; scan = s; state = sym (outcome_same p) }

Parsed-fail :
    (p : FrameParser) (c : ℕ) (text : String)
    → Scan p.max_payload (drop c p.buffer) [] (drop c p.buffer) (some text)
    → Parsed p c (fail p text, c)
Parsed-fail p c text s = record {
  fs = [];
  verdict = some text;
  scan = s;
  state = sym (outcome-fail p text);
}

outcome-push_back :
    (p : FrameParser) (f : Frame) (fs : List Frame) (v : Option String)
    → outcome (push_back p f) fs v ≡ outcome p (f ∷ fs) v
unfolding outcome push_back
outcome-push_back p f fs none = rw append_assoc refl
outcome-push_back p f fs (some text) = rw append_assoc refl

frame_at-eq-first_frame :
    (p : FrameParser) (c : ℕ)
    → frame_at p c (read_header (drop c p.buffer)) ≡ first_frame (drop c p.buffer)
unfolding frame_at
frame_at-eq-first_frame p c =
    ap
      (λ (t : List ℕ). record {
        header = read_header (drop c p.buffer);
        payload = take (read_header (drop c p.buffer)).length t;
      })
      (sym (drop-drop c header_size p.buffer))

-- One more frame in front of what a later round found.
Parsed-frame :
    (p : FrameParser) (c : ℕ) (result : FrameParser × ℕ)
    → is_valid_message_type (read_header (drop c p.buffer)).type ≡ true
    → (read_header (drop c p.buffer)).length ≤ p.max_payload
    → 8 + (read_header (drop c p.buffer)).length ≤ length (drop c p.buffer)
    → Parsed
        (push_back p (frame_at p c (read_header (drop c p.buffer))))
        (c + (header_size + (read_header (drop c p.buffer)).length))
        result
    → Parsed p c result
unfolding push_back
Parsed-frame p c result valid fits whole rest = record {
  fs = first_frame (drop c p.buffer) ∷ rest.fs;
  verdict = rest.verdict;
  scan = frame (drop c p.buffer) valid fits whole (
      subst (λ b. Scan p.max_payload b rest.fs (drop result.1 p.buffer) rest.verdict)
        (sym (drop-drop c (8 + (read_header (drop c p.buffer)).length) p.buffer)) rest.scan);
  state =
      rest.state
      ∙ outcome-push_back p _ rest.fs rest.verdict
      ∙ ap (λ f. outcome p (f ∷ rest.fs) rest.verdict) (frame_at-eq-first_frame p c);
}

pub parse_loop-Parsed :
    (fuel : ℕ) (p : FrameParser) (c : ℕ)
    → length p.buffer ≤ c + fuel
    → Parsed p c (parse_loop fuel p c)
unfolding parse_loop
parse_loop-Parsed zero p c k = Parsed-stop p c (short _ (omega (arith, length-drop c p.buffer)))
parse_loop-Parsed (suc fuel) p c k =
    let b = drop c p.buffer in
    let size = length-drop c p.buffer in
    elim (Bool-cases (ltb (length p.buffer - c) header_size)) [
      | inl few ↦ rw few (Parsed-stop p c (short b (omega (arith, size, ltb→lt _ _ few))))
      | inr enough ↦
          let eight : 8 ≤ length b = omega (arith, size, ltb→le _ _ enough) in
          rw enough (elim (Bool-cases (is_valid_message_type (read_header b).type)) [
            | inr bad ↦ rw bad (Parsed-fail p c _ (bad_type b eight bad))
            | inl valid ↦ rw valid (elim (Bool-cases (ltb p.max_payload (read_header b).length)) [
              | inl large ↦ rw large (Parsed-fail p c _ (too_long b eight valid (ltb→lt _ _ large)))
              | inr fits ↦
                  rw fits
                    (elim (Bool-cases
                      (ltb (length p.buffer - c) (header_size + (read_header b).length))) [
                        | inl part ↦ rw part (
                            Parsed-stop p c (
                              partial b eight valid (ltb→le _ _ fits)
                                (omega (arith, size, ltb→lt _ _ part))))
                        | inr whole ↦ rw whole (
                            Parsed-frame p c _ valid (ltb→le _ _ fits)
                              (omega (arith, size, ltb→le _ _ whole))
                              (parse_loop-Parsed fuel _ _ (unfold push_back in omega arith)))
                      ])
            ])
          ])
    ]

-- The other direction: what the relation says the bytes hold is what the loop finds.
abbrev pub Found : FrameParser → List Frame → List ℕ → Option String → FrameParser × ℕ → Type 0
Found p fs r v result = (c : ℕ) × (result ≡ (outcome p fs v, c)) × (drop c p.buffer ≡ r)

Found-frame :
    (p : FrameParser) (c fuel : ℕ) (b : List ℕ) (fs : List Frame) (r : List ℕ) (v : Option String)
    → is_valid_message_type (read_header b).type ≡ true
    → (read_header b).length ≤ p.max_payload
    → 8 + (read_header b).length ≤ length b
    → drop c p.buffer ≡ b
    → Found (push_back p (frame_at p c (read_header b))) fs r v (
        parse_loop fuel
          (push_back p (frame_at p c (read_header b)))
          (c + (8 + (read_header b).length)))
    → Found p (first_frame b ∷ fs) r v (parse_loop (suc fuel) p c)
unfolding parse_loop
Found-frame p c fuel b fs r v valid fits whole e (c', looped, left) =
    (c', step ∙ looped ∙ ap (λ q. (q, c')) taken, unfold push_back in left)
  where
    step :
        parse_loop (suc fuel) p c
        ≡ parse_loop fuel
            (push_back p (frame_at p c (read_header b)))
            (c + (8 + (read_header b).length))
    step = rw e (ground (arith, length-drop c p.buffer, ap length e))

    taken :
        outcome (push_back p (frame_at p c (read_header b))) fs v ≡ outcome p (first_frame b ∷ fs) v
    taken =
        outcome-push_back p (frame_at p c (read_header b)) fs v
        ∙ ap (λ t. outcome p (t ∷ fs) v)
            (subst (λ t. frame_at p c (read_header t) ≡ first_frame t) e
              (frame_at-eq-first_frame p c))

pub Scan-parse_loop :
    (fuel : ℕ) (p : FrameParser) (c : ℕ) {b : List ℕ} {fs : List Frame} {r : List ℕ}
    {v : Option String}
    → Scan p.max_payload b fs r v
    → drop c p.buffer ≡ b
    → length p.buffer ≤ c + fuel
    → Found p fs r v (parse_loop fuel p c)
unfolding parse_loop push_back
Scan-parse_loop zero p c (short b few) e k = (c, ap (λ q. (q, c)) (sym (outcome_same p)), e)
Scan-parse_loop zero p c (bad_type b eight bad) e k =
    absurd (omega (arith, length-drop c p.buffer, ap length e))
Scan-parse_loop zero p c (too_long b eight valid large) e k =
    absurd (omega (arith, length-drop c p.buffer, ap length e))
Scan-parse_loop zero p c (partial b eight valid fits part) e k =
    absurd (omega (arith, length-drop c p.buffer, ap length e))
Scan-parse_loop zero p c (frame b valid fits whole rest) e k =
    absurd (omega (arith, length-drop c p.buffer, ap length e))
Scan-parse_loop (suc fuel) p c (short b few) e k =
    (c, ground (arith, outcome_same p, length-drop c p.buffer, ap length e), e)
Scan-parse_loop (suc fuel) p c (bad_type b eight bad) e k = (
  c,
  ground (arith, outcome-fail p "invalid RPC message type", length-drop c p.buffer, ap length e),
  e,
)
Scan-parse_loop (suc fuel) p c (too_long b eight valid large) e k = (
  c,
  ground (
    arith,
    outcome-fail p "RPC payload exceeds configured maximum",
    length-drop c p.buffer,
    ap length e,
  ),
  e,
)
Scan-parse_loop (suc fuel) p c (partial b eight valid fits part) e k =
    (c, ground (arith, outcome_same p, length-drop c p.buffer, ap length e), e)
Scan-parse_loop (suc fuel) p c (frame b {fs} {r} {v} valid fits whole rest) e k =
    Found-frame p c fuel b fs r v valid fits whole e (
      Scan-parse_loop fuel _ _ rest (sym (drop-drop c _ p.buffer) ∙ ap (drop _) e)
        (omega (arith, length-drop c p.buffer, ap length e)))
