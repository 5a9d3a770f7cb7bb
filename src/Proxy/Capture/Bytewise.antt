-- ===== src/Proxy/Capture/Bytewise.antt =====
-- internal/proxy/outcome.go: the writes of a stream, however it is cut, are read as its bytes in a row.
use astreo_gateway.Base.{
  arith, length, length-append, append-nil, if◌then◌else◌, ◌==◌, ◌++◌, ◌∷◌, [], List, some, zero,
  suc, ℕ, ◌<◌, false, true, Bool, ◌∙◌, ap, sym, refl, ◌≡◌, Text, cut, Lacks, cut-append, cut-Lacks,
}
use mathlib.Core.List.{flatten}
use mathlib.Core.Path.{subst}
use astreo_gateway.Json.{Json}
use astreo_gateway.Proxy.Capture.{Capture, read_usage, read_line, drain, drained, feed, capture_all}

module _ (json : Json) (trim : Text → Text) where
  -- one byte: a newline ends the line that has begun, any other byte continues it
  take_byte : Capture → ℕ → Capture
  take_byte u c =
      if c == 10
      then read_line json trim (record u { buf = [] }) u.buf
      else record u { buf = u.buf ++ c ∷ [] }

  -- a text byte by byte
  unfoldable pub scan : Capture → Text → Capture
  unfolding take_byte
  scan u [] = u
  scan u (c ∷ rest) = scan (take_byte u c) rest

  scan-append : (u : Capture) (p q : Text) → scan u (p ++ q) ≡ scan (scan u p) q
  unfolding scan
  scan-append u [] q = refl
  scan-append u (c ∷ p) q = scan-append (take_byte u c) p q

  -- a line changes the counts only, and does not read the buffer
  read_line-buf :
      (u : Capture) (buf line : Text)
      → read_line json trim (record u { buf = buf }) line
        ≡ record (read_line json trim (record u { buf = [] }) line) { buf = buf }
  unfolding read_line read_usage
  read_line-buf u buf line = ground arith

  Lacks-append : (a : Text) (c : ℕ) → Lacks 10 a → (c == 10) ≡ false → Lacks 10 (a ++ c ∷ [])
  Lacks-append [] c h e = (e, tt)
  Lacks-append (b ∷ a) c h e = (h.0, Lacks-append a c h.1 e)

  cut_here :
      (a : Text) (c : ℕ) (t : Text)
      → Lacks 10 a
      → (c == 10) ≡ true
      → cut 10 (a ++ c ∷ t) ≡ some (a, t)
  cut_here a c t h e =
      let same : c ≡ 10 = ground (arith, e) in
      ap (λ x. cut 10 (a ++ x ∷ t)) same ∙ cut-append 10 a t h

  append-one : (a : Text) (c : ℕ) (t : Text) → (a ++ c ∷ []) ++ t ≡ a ++ c ∷ t
  append-one [] c t = refl
  append-one (b ∷ a) c t = ap (λ l. b ∷ l) (append-one a c t)

  drain-scan :
      (fuel : ℕ) (u : Capture) (a t : Text)
      → Lacks 10 a
      → length t < fuel
      → drain json trim fuel (record u { buf = a ++ t }) ≡ scan (record u { buf = a }) t
  unfolding drain drained scan take_byte
  drain-scan zero u a t h less = elim less [ ]
  drain-scan (suc fuel) u a [] h less =
      ap (drained json trim (λ v. drain json trim fuel v) (record u { buf = a ++ [] }))
        (ap (cut 10) (append-nil a) ∙ cut-Lacks 10 a h)
      ∙ ap (λ b. record u { buf = b }) (append-nil a)
  drain-scan (suc fuel) u a (c ∷ t) h less =
      by_byte (c == 10) refl (λ n v b l k. drain-scan n v b t l k)
    where
      by_byte :
          (b : Bool)
          → (c == 10) ≡ b
          → ((n : ℕ) (v : Capture) (b : Text)
              → Lacks 10 b
              → length t < n
              → drain json trim n (record v { buf = b ++ t }) ≡ scan (record v { buf = b }) t)
          → drain json trim (suc fuel) (record u { buf = a ++ c ∷ t })
            ≡ scan
                (if b
                  then read_line json trim (record u { buf = [] }) a
                  else record u { buf = a ++ c ∷ [] })
                t
      by_byte true e rest =
          let read : Capture = read_line json trim (record u { buf = [] }) a in
          ap (drained json trim (λ v. drain json trim fuel v) (record u { buf = a ++ c ∷ t }))
            (cut_here a c t h e)
          ∙ ap (drain json trim fuel) (read_line-buf u t a)
          ∙ rest fuel read [] tt (omega (arith, less))
          ∙ ap (λ v. scan v t) (sym (read_line-buf u [] a))
      by_byte false e rest =
          ap (λ b. drain json trim (suc fuel) (record u { buf = b })) (sym (append-one a c t))
          ∙ rest (suc fuel) u (a ++ c ∷ []) (Lacks-append a c h e) (omega (arith, less))

  feed-scan : (u : Capture) (p : Text) → Lacks 10 u.buf → feed json trim u p ≡ scan u p
  unfolding feed
  feed-scan u p h =
      drain-scan (suc (length (u.buf ++ p))) u u.buf p h (omega (arith, length-append u.buf p))

  take_byte-Lacks : (u : Capture) (c : ℕ) → Lacks 10 u.buf → Lacks 10 (take_byte u c).buf
  unfolding take_byte
  take_byte-Lacks u c h = by_byte (c == 10) refl
    where
      by_byte :
          (b : Bool)
          → (c == 10) ≡ b
          → Lacks 10
              (if b
                then read_line json trim (record u { buf = [] }) u.buf
                else record u { buf = u.buf ++ c ∷ [] }).buf
      by_byte true e = subst (λ (v : Capture). Lacks 10 v.buf) (sym (read_line-buf u [] u.buf)) tt
      by_byte false e = Lacks-append u.buf c h e

  scan-Lacks : (u : Capture) (p : Text) → Lacks 10 u.buf → Lacks 10 (scan u p).buf
  unfolding scan
  scan-Lacks u [] h = h
  scan-Lacks u (c ∷ p) h = scan-Lacks (take_byte u c) p (take_byte-Lacks u c h)

  -- However a stream is cut into writes, `Write` leaves the buffer and the token counts that one pass
  -- over all bytes leaves, in which a newline ends a line and every other byte continues one. The
  -- buffer has no newline before, as the empty one of a new writer.
  pub capture_all-scan :
      (u : Capture) (ps : List Text)
      → Lacks 10 u.buf
      → capture_all json trim u ps ≡ scan u (flatten ps)
  unfolding capture_all flatten scan
  capture_all-scan u [] h = refl
  capture_all-scan u (p ∷ ps) h =
      ap (λ v. capture_all json trim v ps) (feed-scan u p h)
      ∙ capture_all-scan (scan u p) ps (scan-Lacks u p h)
      ∙ sym (scan-append u p (flatten ps))
