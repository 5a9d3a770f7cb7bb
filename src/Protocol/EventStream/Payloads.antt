-- ===== src/Protocol/EventStream/Payloads.antt =====
-- The payloads of an event stream, and the reading of them one by one.
use astreo_gateway.Protocol.Content.{join_with}
use astreo_gateway.Base.{
  drop, Bool-cases, if◌then◌else◌, append_assoc, append-nil, ◌++◌, ◌∷◌, [], List, ◌||◌, false, true,
  Bool, inr, inl, ◌∙◌, ap, sym, refl, ◌≡◌, is_empty, codes, Text, has_prefix, ◌≐◌,
}
use astreo_gateway.Protocol.EventStream.{Emit, flush_event, read_events}

-- the payload of an event, where it is none of those that are skipped
unfoldable pub payload_of : List Text → List Text
payload_of data_lines =
    let payload = join_with (codes "\n") data_lines in
    if is_empty payload || payload ≐ codes "[DONE]" then [] else payload ∷ []

-- the payloads of the lines, behind the data lines of the event that has begun
unfoldable pub payloads : (Text → Text) → List Text → List Text → List Text
unfolding payload_of
payloads trim data_lines [] = payload_of data_lines
payloads trim data_lines (line ∷ lines) =
    let later = payloads trim [] lines in
    let more = payloads trim (data_lines ++ trim (drop 5 line) ∷ []) lines in
    let rest = payloads trim data_lines lines in
    if is_empty line
    then payload_of data_lines ++ later
    else if has_prefix line (codes "data:")
    then more
    else rest

module _ {S : Type 0} (handle : S → Text → S × List Emit) where
  unfoldable pub run : S → List Text → S × List Emit
  run s [] = (s, [])
  run s (p ∷ ps) =
      let (now, emits) = handle s p in let (last, later) = run now ps in (last, emits ++ later)

  run-append :
      (s : S) (ps qs : List Text)
      → run s (ps ++ qs) ≡ ((run (run s ps).0 qs).0, (run s ps).1 ++ (run (run s ps).0 qs).1)
  unfolding run
  run-append s [] qs = refl
  run-append s (p ∷ ps) qs =
      ap (λ r. (r.0, (handle s p).1 ++ r.1)) (run-append (handle s p).0 ps qs)
      ∙ ap (λ l. ((run (run (handle s p).0 ps).0 qs).0, l)) (sym (append_assoc (handle s p).1 _ _))

  module _ (trim : Text → Text) where
    run-payload_of :
        (s : S) (data_lines : List Text)
        → run s (payload_of data_lines) ≡ flush_event trim handle s data_lines
    unfolding flush_event run payload_of
    run-payload_of s data_lines = by_test (
        is_empty (join_with (codes "\n") data_lines)
        || join_with (codes "\n") data_lines ≐ codes "[DONE]")
      where
        by_test :
            (b : Bool)
            → run s (if b then [] else join_with (codes "\n") data_lines ∷ [])
              ≡ (if b then (s, []) else handle s (join_with (codes "\n") data_lines))
        by_test true = refl
        by_test false =
            ap (λ l. ((handle s (join_with (codes "\n") data_lines)).0, l)) (append-nil _)

    -- The loop over the lines, which handles each event as it ends, does to the state and writes what
    -- handling the payloads of the whole stream one after the other does.
    pub read_events-run :
        (s : S) (data_lines lines : List Text)
        → read_events trim handle s data_lines lines ≡ run s (payloads trim data_lines lines)
    unfolding read_events payloads
    read_events-run s data_lines [] = sym (run-payload_of s data_lines)
    read_events-run s data_lines (line ∷ lines) = elim (Bool-cases (is_empty line)) [
      | inl e ↦ rw e (
          ap
            (λ f. (
              (read_events trim handle f.0 [] lines).0,
              f.1 ++ (read_events trim handle f.0 [] lines).1,
            ))
            (sym (run-payload_of s data_lines))
          ∙ ap (λ r. (r.0, (run s (payload_of data_lines)).1 ++ r.1))
              (read_events-run (run s (payload_of data_lines)).0 [] lines)
          ∙ sym (run-append s (payload_of data_lines) (payloads trim [] lines)))
      | inr e ↦ elim (Bool-cases (has_prefix line (codes "data:"))) [
        | inl c ↦ rw (e, c) (read_events-run s (data_lines ++ trim (drop 5 line) ∷ []) lines)
        | inr c ↦ rw (e, c) (read_events-run s data_lines lines)
      ]
    ]
