-- ===== src/Rpc/Wire/Chunks.antt =====
-- How the transport cuts the stream into pieces does not matter to `FrameParser`.
use Prim.Native.String.{String}
use mathlib.Core.Bool.{false≢true}
use ostinato.Base.{
  ℕ, ◌≡◌, refl, sym, subst, ◌∙◌, true, false, Option, none, some, List, ◌++◌, append_assoc, if_true,
}
use ostinato.Rpc.Wire.{Frame, FrameParser, ByteView, bytes, null, fail, push}
use ostinato.Rpc.Wire.Scan.{Scan, outcome}
use ostinato.Rpc.Wire.Stream.{push-Pushed, push_of_Scan, taken, Scan-append, Scan-append_failed}

-- A failed parser ignores every further input, of either kind, until `reset`.
pub push_failed : (p : FrameParser) (v : ByteView) → p.failed ≡ true → push p v ≡ p
unfolding push
push_failed p (null size) h = if_true p.failed p _ h
push_failed p (bytes data') h = if_true p.failed p _ h

taken-none-failed :
    (p : FrameParser) (fs : List Frame) (r : List ℕ) → (taken p fs r none).failed ≡ p.failed
unfolding taken
taken-none-failed p fs r = refl

taken-some-failed :
    (p : FrameParser) (fs : List Frame) (r : List ℕ) (t : String)
    → (taken p fs r (some t)).failed ≡ true
unfolding taken fail
taken-some-failed p fs r t = refl

taken-taken :
    (p : FrameParser) (fs gs : List Frame) (r s : List ℕ) (v : Option String)
    → taken (taken p fs r none) gs s v ≡ taken p (fs ++ gs) s v
unfolding taken fail
taken-taken p fs gs r s none = rw append_assoc refl
taken-taken p fs gs r s (some t) = rw append_assoc refl

taken-buffer :
    (p : FrameParser) (fs : List Frame) (r b : List ℕ) (v : Option String)
    → taken p fs (r ++ b) v ≡ record (taken p fs r v) { buffer = (taken p fs r v).buffer ++ b }
unfolding taken
taken-buffer p fs r b v = refl

abbrev pub Chunked : FrameParser → List ℕ → List ℕ → Type 0
Chunked p a b =
    let q = push p (bytes a) in
    let whole = push p (bytes (a ++ b)) in
    (q.failed ≡ false → push q (bytes b) ≡ whole)
    × (q.failed ≡ true → whole ≡ record q { buffer = q.buffer ++ b })

module _ (p : FrameParser) (a b : List ℕ) (fresh : p.failed ≡ false) where
  pieces_join :
      (fs : List Frame) (r : List ℕ)
      → Scan p.max_payload (p.buffer ++ a) fs r none
      → push (taken p fs r none) (bytes b) ≡ push p (bytes (a ++ b))
  unfolding taken outcome
  pieces_join fs r scan =
      let s = push-Pushed (taken p fs r none) b fresh in
      s.result
      ∙ taken-taken p fs s.fs r s.rest s.verdict
      ∙ sym (
          push_of_Scan p (a ++ b) (fs ++ s.fs) s.rest s.verdict fresh (
            subst (λ c. Scan p.max_payload c (fs ++ s.fs) s.rest s.verdict)
              (append_assoc p.buffer a b) (Scan-append p.max_payload b scan s.scan)))

  failure_stays :
      (fs : List Frame) (r : List ℕ) (t : String)
      → Scan p.max_payload (p.buffer ++ a) fs r (some t)
      → push p (bytes (a ++ b)) ≡ taken p fs (r ++ b) (some t)
  failure_stays fs r t scan = push_of_Scan p (a ++ b) fs (r ++ b) (some t) fresh (
      subst (λ c. Scan p.max_payload c fs (r ++ b) (some t)) (append_assoc p.buffer a b)
        (Scan-append_failed p.max_payload b scan))

  Chunked-of :
      (fs : List Frame) (r : List ℕ) (v : Option String)
      → Scan p.max_payload (p.buffer ++ a) fs r v
      → push p (bytes a) ≡ taken p fs r v
      → Chunked p a b
  Chunked-of fs r none scan e = rw e (
    (λ _. pieces_join fs r scan),
    λ h. absurd (false≢true (sym fresh ∙ sym (taken-none-failed p fs r) ∙ h)),
  )
  Chunked-of fs r (some t) scan e = rw e (
    (λ h. absurd (false≢true (sym h ∙ taken-some-failed p fs r t))),
    λ _. failure_stays fs r t scan ∙ taken-buffer p fs r b (some t),
  )

-- While the parser has not failed, the frames, the leftover bytes and the verdict are the same
-- whether two pieces of the stream come in two calls or in one; where the first piece fails, the
-- second changes nothing but the bytes that the one call keeps in the buffer.
pub push-push : (p : FrameParser) (a b : List ℕ) → p.failed ≡ false → Chunked p a b
push-push p a b fresh =
    let s = push-Pushed p a fresh in Chunked-of p a b fresh s.fs s.rest s.verdict s.scan s.result
