-- ===== src/Rpc/Client/Headers.antt =====
-- `nextHeader` of rpc/pbrpc_client_core.cpp: the header that stands first in the stream of bytes.
use ostinato.Base.{
  ℕ, zero, suc, ◌+◌, ◌≤◌, ◌≡◌, ◌⊎◌, refl, ap, sym, subst, ◌∙◌, Bool, true, false, List, ◌∷◌, ◌++◌,
  ltb, if_cases, length, drop, arith, append_assoc, length-append, drop-append-le,
}
use ostinato.Rpc.Wire.{Header, read_header, is_valid_message_type}
use ostinato.Client.Session.{answers}
use ostinato.Rpc.Client.{RpcConnection, receive_some, coming, following, taken_header, next_header}
use ostinato.Rpc.Client.Reads.{
  is_quiet, stream, side, Left, Left-same, receive_some-Received, following_answers,
}

read_header-prefix : (xs ys : List ℕ) → 8 ≤ length xs → read_header (xs ++ ys) ≡ read_header xs
unfolding read_header
read_header-prefix (a ∷ b ∷ c ∷ d ∷ e ∷ f ∷ g ∷ h ∷ xs) ys k = refl
read_header-prefix _ ys k = absurd (omega arith)

taken_header-Left :
    (max : ℕ) (c : RpcConnection)
    → is_quiet c.events ≡ true
    → 8 ≤ length c.pending
    → is_valid_message_type (read_header (stream c)).type ≡ true
    → (read_header (stream c)).length ≤ max
    → Left (read_header (stream c)) (drop 8 (stream c)) (side c) (taken_header max c)
unfolding taken_header
taken_header-Left max c q h valid fits =
    let same = read_header-prefix c.pending (coming c.events) h in
    let within : ltb max (read_header c.pending).length ≡ false =
      subst (λ (header : Header). ltb max header.length ≡ false) same (ground arith) in
    let named : is_valid_message_type (read_header c.pending).type ≡ true =
      subst (λ (header : Header). is_valid_message_type header.type ≡ true) same valid in
    rw (named, within)
      (record {
        answer = ap answers (sym same);
        rest = sym (drop-append-le 8 c.pending (coming c.events) h);
        quiet = q;
        same_side = refl;
      })

pub next_header-Left :
    (fuel max : ℕ) (c : RpcConnection)
    → is_quiet c.events ≡ true
    → 8 ≤ length (stream c)
    → (length c.events + 2 ≤ fuel) ⊎ ((8 ≤ length c.pending) × (1 ≤ fuel))
    → is_valid_message_type (read_header (stream c)).type ≡ true
    → (read_header (stream c)).length ≤ max
    → Left (read_header (stream c)) (drop 8 (stream c)) (side c) (next_header fuel max c)
unfolding next_header
next_header-Left zero max c q h k valid fits = absurd (ground (arith, k))
next_header-Left (suc fuel) max c q h k valid fits =
    let Ends = Left (read_header (stream c)) (drop 8 (stream c)) (side c) in
    if_cases Ends (ltb (length c.pending) 8)
      (following (receive_some 8192 c.events c)
        (λ d input. next_header fuel max (record d { pending = d.pending ++ input })))
      _
      (λ short.
        let got =
          receive_some-Received 8192 c.events c q
            (ground (arith, length-append c.pending (coming c.events))) in
        let t = receive_some 8192 c.events c in
        let d : RpcConnection = record t.0 { pending = t.0.pending ++ got.input } in
        let same : stream d ≡ stream c =
          append_assoc t.0.pending got.input (coming t.0.events)
          ∙ ap (λ (xs : List ℕ). xs ++ (got.input ++ coming t.0.events)) got.pending
          ∙ ap (λ (xs : List ℕ). c.pending ++ xs) got.all in
        subst Ends (sym (following_answers t got.input _ got.answer)) (
          Left-same _ _ _ _ (side c) _ (ap read_header same) (ap (drop 8) same) (
            subst
              (λ (live : Bool × List ℕ).
                Left (read_header (stream d)) (drop 8 (stream d)) live (next_header fuel max d))
              got.same_side
              (next_header-Left fuel max d got.quiet
                (subst (λ (xs : List ℕ). 8 ≤ length xs) (sym same) h)
                (ground (arith, got.sooner, k, length-append t.0.pending got.input))
                (subst (λ (xs : List ℕ). is_valid_message_type (read_header xs).type ≡ true)
                  (sym same) valid)
                (subst (λ (xs : List ℕ). (read_header xs).length ≤ max) (sym same) fits)))))
      (λ long. taken_header-Left max c q (ground arith) valid fits)
