-- ===== src/Rpc/Wire/Stream.antt =====
-- `FrameParser::push` over a stream: what one call does, and how the calls for the pieces of a
-- stream compose.
use Prim.Native.String.{String}
use ostinato.Base.{
  ℕ, zero, suc, ◌+◌, ◌≤◌, ◌<◌, ◌≡◌, refl, ◌∙◌, true, false, Option, none, some, List, [], ◌∷◌, ◌++◌,
  arith, get_or, length, drop, if_false, length-append, length-drop, take-append-le, drop-append-le,
}
use ostinato.Rpc.Wire.{
  Frame, FrameParser, bytes, is_valid_message_type, read_header, fail, parse_loop, parse, push,
}
use ostinato.Rpc.Wire.Scan.{
  Scan, short, bad_type, too_long, partial, frame, first_frame, outcome, parse_loop-Parsed,
  Scan-parse_loop,
}

-- The parser that took these frames out of its bytes, kept the rest and came to the verdict.
unfoldable pub taken : FrameParser → List Frame → List ℕ → Option String → FrameParser
unfolding outcome
taken p fs r v = record (outcome p fs v) { buffer = r }

-- The result of one call on a parser that has not failed.
pub record Pushed (p : FrameParser) (data' : List ℕ) : Type 0 where
  pub fs : List Frame
  pub rest : List ℕ
  pub verdict : Option String
  pub scan : Scan p.max_payload (p.buffer ++ data') fs rest verdict
  pub result : push p (bytes data') ≡ taken p fs rest verdict

outcome-buffer :
    (p : FrameParser) (fs : List Frame) (v : Option String) → (outcome p fs v).buffer ≡ p.buffer
unfolding outcome fail
outcome-buffer p fs none = refl
outcome-buffer p fs (some t) = refl

pub taken_rest :
    (p : FrameParser) (fs : List Frame) (r : List ℕ) (v : Option String)
    → (taken p fs r v).buffer ≡ r
unfolding taken
taken_rest p fs r v = refl

pub taken_frames :
    (p : FrameParser) (fs : List Frame) (r : List ℕ) (v : Option String)
    → (taken p fs r v).frames ≡ p.frames ++ fs
unfolding taken fail
taken_frames p fs r none = refl
taken_frames p fs r (some t) = refl

outcome-append_buffer :
    (p : FrameParser) (b r : List ℕ) (fs : List Frame) (v : Option String)
    → record (outcome (record p { buffer = b }) fs v) { buffer = r } ≡ taken p fs r v
unfolding taken outcome fail
outcome-append_buffer p b r fs none = refl
outcome-append_buffer p b r fs (some t) = refl

-- The relation determines what a call does.
pub push_of_Scan :
    (p : FrameParser) (data' : List ℕ) (fs : List Frame) (r : List ℕ) (v : Option String)
    → p.failed ≡ false
    → Scan p.max_payload (p.buffer ++ data') fs r v
    → push p (bytes data') ≡ taken p fs r v
unfolding push parse
push_of_Scan p data' fs r v fresh scan =
    let b = p.buffer ++ data' in
    let q : FrameParser = record p { buffer = b } in
    let (c, looped, left) = Scan-parse_loop (length b) q 0 scan refl (omega arith) in
    if_false p.failed p _ fresh
    ∙ rw looped (rw (outcome-buffer q fs v, left) (outcome-append_buffer p b r fs v))

-- Every call takes the frames that the buffer and the new bytes hold, and stops only at bytes that
-- are not a whole frame or can be none: the loop never runs short of rounds.
pub push-Pushed : (p : FrameParser) (data' : List ℕ) → p.failed ≡ false → Pushed p data'
push-Pushed p data' fresh =
    let b = p.buffer ++ data' in
    let q : FrameParser = record p { buffer = b } in
    let done = parse_loop-Parsed (length b) q 0 (omega arith) in
    record {
      fs = done.fs;
      rest = drop (parse_loop (length b) q 0).1 b;
      verdict = done.verdict;
      scan = done.scan;
      result = push_of_Scan p data' done.fs _ done.verdict fresh done.scan;
    }

get_or-append : (xs ys : List ℕ) (i : ℕ) → i < length xs → get_or (xs ++ ys) i 0 ≡ get_or xs i 0
get_or-append [] ys i h = absurd (omega arith)
get_or-append (x ∷ xs) ys zero h = refl
get_or-append (x ∷ xs) ys (suc i) h = get_or-append xs ys i (omega arith)

pub read_header-append : (a b : List ℕ) → 8 ≤ length a → read_header (a ++ b) ≡ read_header a
unfolding read_header
read_header-append a b h =
    rw
      (
        get_or-append a b 0 (omega arith),
        get_or-append a b 1 (omega arith),
        get_or-append a b 2 (omega arith),
        get_or-append a b 3 (omega arith),
        get_or-append a b 4 (omega arith),
        get_or-append a b 5 (omega arith),
        get_or-append a b 6 (omega arith),
        get_or-append a b 7 (omega arith),
      )
      refl

first_frame-append :
    (a b : List ℕ) → 8 + (read_header a).length ≤ length a → first_frame (a ++ b) ≡ first_frame a
first_frame-append a b h =
    rw (read_header-append a b (omega arith), drop-append-le 8 a b (omega arith))
      (rw (take-append-le (read_header a).length (drop 8 a) b (omega (arith, length-drop 8 a)))
        refl)

module _ (max : ℕ) where
  frame-append :
      (a b : List ℕ) (fs : List Frame) (r : List ℕ) (v : Option String)
      → is_valid_message_type (read_header a).type ≡ true
      → (read_header a).length ≤ max
      → 8 + (read_header a).length ≤ length a
      → Scan max (drop (8 + (read_header a).length) a ++ b) fs r v
      → Scan max (a ++ b) (first_frame a ∷ fs) r v
  frame-append a b fs r v valid fits whole rest =
      let same = read_header-append a b (omega arith) in
      rw (← first_frame-append a b whole) (
        frame (a ++ b) (rw same valid) (rw same fits) (rw same (omega (arith, length-append a b)))
          (rw (same, drop-append-le _ a b whole) rest))

  -- Bytes that arrive later go on where the earlier ones stopped.
  pub Scan-append :
      {a : List ℕ} {fs : List Frame} {r : List ℕ} (b : List ℕ) {gs : List Frame} {s : List ℕ}
      {v : Option String}
      → Scan max a fs r none
      → Scan max (r ++ b) gs s v
      → Scan max (a ++ b) (fs ++ gs) s v
  Scan-append b (short a few) next = next
  Scan-append b (partial a eight valid fits part) next = next
  Scan-append b {gs} {s} {v} (frame a {fs} valid fits whole rest) next =
      frame-append a b (fs ++ gs) s v valid fits whole (Scan-append b rest next)

  -- After a failure later bytes change nothing but the buffer.
  pub Scan-append_failed :
      {a : List ℕ} {fs : List Frame} {r : List ℕ} {text : String} (b : List ℕ)
      → Scan max a fs r (some text)
      → Scan max (a ++ b) fs (r ++ b) (some text)
  Scan-append_failed b (bad_type a eight bad) =
      let same = read_header-append a b eight in
      bad_type (a ++ b) (omega (arith, length-append a b)) (rw same bad)
  Scan-append_failed b (too_long a eight valid large) =
      let same = read_header-append a b eight in
      too_long (a ++ b) (omega (arith, length-append a b)) (rw same valid) (rw same large)
  Scan-append_failed b (frame a valid fits whole rest) =
      frame-append a b _ _ _ valid fits whole (Scan-append_failed b rest)
