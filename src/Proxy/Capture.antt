-- ===== src/Proxy/Capture.antt =====
-- internal/proxy/outcome.go: `usageCaptureWriter`, which reads token counts off a stream that it
-- passes on. The lines are those that end in a newline; the rest waits in the buffer.
pub mod Bytewise
use astreo_gateway.Base.{
  drop, length, if◌then◌else◌, ◌++◌, ◌∷◌, [], List, some, none, Option, ◌||◌, not, zero, suc, ℕ,
  is_empty, codes, Text, has_prefix, ◌≐◌, cut,
}
use astreo_gateway.Json.{Json}

pub record Capture : Type 0 where
  pub buf : Text
  pub prompt : ℕ
  pub completion : ℕ

-- `trim` is `bytes.TrimSpace`
module _ (json : Json) (trim : Text → Text) where
  read_usage : Capture → Option (ℕ × ℕ) → Capture
  read_usage u none = u
  read_usage u (some (p, c)) = record u { prompt = p; completion = c }

  -- the body of the loop of `Write`, on one line
  unfoldable pub read_line : Capture → Text → Capture
  unfolding read_usage
  read_line u line =
      let l = trim line in
      let payload = trim (drop 5 l) in
      if not (has_prefix l (codes "data:"))
      then u
      else if is_empty payload || payload ≐ codes "[DONE]"
      then u
      else read_usage u (json.usage payload)

  -- the loop of `Write`: as long as the buffer has a newline, its first line is read off it
  drained : (Capture → Capture) → Capture → Option (Text × Text) → Capture
  drained go u none = u
  drained go u (some (line, rest)) = go (read_line (record u { buf = rest }) line)

  drain : ℕ → Capture → Capture
  unfolding drained
  drain zero u = u
  drain (suc fuel) u = drained (λ v. drain fuel v) u (cut 10 u.buf)

  -- `Write`; each line takes a byte at least, its newline
  unfoldable pub feed : Capture → Text → Capture
  unfolding drain
  feed u p = let v = record u { buf = u.buf ++ p } in drain (suc (length v.buf)) v

  unfoldable pub capture_all : Capture → List Text → Capture
  capture_all u [] = u
  capture_all u (p ∷ ps) = capture_all (feed u p) ps
