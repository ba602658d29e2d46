-- ===== src/Audit/Log/Torn.antt =====
-- An append that stops, and what the next recovery makes of the file.
use hp_guardian.Prelude.{
  ℕ, zero, suc, ◌<◌, String, true, Option, none, some, List, [], ◌∷◌, ◌++◌, ◌≡◌, ◌≢◌, refl, sym, ap,
  ◌∙◌, arith, ok, length, All, nat_eq,
}
use hp_guardian.Prelude.Map.{get}
use hp_guardian.Audit.Disk.{
  path_eq, live, regular, validate_node, validate_regular_or_absent, Disk, World, sync, change,
  take_bytes,
}
use hp_guardian.Audit.Rotation.Outcomes.{
  Outcome, Outcome-stop, Runs, Runs-bind, Runs-read, Runs-change, Runs-change_or,
}
use hp_guardian.Audit.Tails.{Json, tail_of}
use hp_guardian.Audit.Tails.Lines.{IsLine, print_lines, append_assoc, take_bytes-append}
use hp_guardian.Audit.Tails.Recovers.{IsRecord, whole, torn, Recovers, tail_of_iff}
use hp_guardian.Audit.Log.{Flock, create_if_absent, append_bytes, append_line, write_line}
use hp_guardian.Audit.Log.Appended.{Holds, append_bytes-Holds}
use hp_guardian.Audit.Log.Recovered.{left_of, append_nil}

print_lines-append :
    (lines : List (List ℕ)) (line : List ℕ)
    → print_lines (lines ++ line ∷ []) ≡ print_lines lines ++ (line ++ 10 ∷ [])
print_lines-append [] line = refl
print_lines-append (first ∷ lines) line =
    ap (λ l. first ++ 10 ∷ l) (print_lines-append lines line)
    ∙ sym (append_assoc first (10 ∷ print_lines lines) (line ++ 10 ∷ []))

take_bytes-IsLine : (k : ℕ) (line : List ℕ) → IsLine line → IsLine (take_bytes k line)
take_bytes-IsLine zero line h = tt
take_bytes-IsLine (suc k) [] h = tt
take_bytes-IsLine (suc k) (b ∷ line) (h, hs) = (h, take_bytes-IsLine k line hs)

-- The beginning of a line, of its bytes alone, or all of it.
data Begins (line : List ℕ) (k : ℕ) : List ℕ → Type 0 where
  partly : k < length line → Begins line k (take_bytes k line)
  unended : k ≡ length line → Begins line k line
  wholly : Begins line k (line ++ 10 ∷ [])

Begins-cons :
    (b : ℕ) (line : List ℕ) (k : ℕ) {bytes : List ℕ}
    → Begins line k bytes
    → Begins (b ∷ line) (suc k) (b ∷ bytes)
Begins-cons b line k (partly lt) = partly (omega (arith, lt))
Begins-cons b line k (unended e) = unended (omega (arith, e))
Begins-cons b line k wholly = wholly

take_bytes-Begins : (line : List ℕ) (k : ℕ) → Begins line k (take_bytes k (line ++ 10 ∷ []))
take_bytes-Begins [] zero = unended refl
take_bytes-Begins [] (suc zero) = wholly
take_bytes-Begins [] (suc (suc k)) = wholly
take_bytes-Begins (b ∷ line) zero = partly (omega arith)
take_bytes-Begins (b ∷ line) (suc k) = Begins-cons b line k (take_bytes-Begins line k)

All-append :
    (P : List ℕ → Type 0) (lines : List (List ℕ)) {line : List ℕ}
    → All P lines
    → P line
    → All P (lines ++ line ∷ [])
All-append P [] h p = (p, tt)
All-append P (first ∷ lines) (h, hs) p = (h, All-append P lines hs p)

longer-filled : (lines : List (List ℕ)) (line : List ℕ) → (lines ++ line ∷ []) ≢ []
longer-filled [] line e = cc e
longer-filled (first ∷ lines) line e = cc e

take_bytes-filled : (k : ℕ) (line : List ℕ) → suc k < length line → take_bytes (suc k) line ≢ []
take_bytes-filled k [] lt e = absurd (omega (arith, lt))
take_bytes-filled k (b ∷ line) lt e = cc e

module _ (json : Json) (lines : List (List ℕ)) (line : List ℕ) where
  abbrev longer : List (List ℕ)
  longer = lines ++ line ∷ []

  -- The bytes of a line that is not finished are UTF-8 and no JSON.
  abbrev pub IsUnfinished : Type 0
  IsUnfinished =
      (k : ℕ)
      → k < length line
      → k ≢ 0
      → (json.is_utf8 (take_bytes k line) ≡ true) × (json.is_object (take_bytes k line) ≡ none)

  -- What the recovery leaves of the bytes: the lines before, or one more.
  pub data Mends (content : List ℕ) : Type 0 where
    dropped :
        (cut : Option ℕ)
        → tail_of json content ≡ ok cut
        → left_of cut content ≡ print_lines lines
        → Mends content
    kept : tail_of json content ≡ ok none → content ≡ print_lines longer → Mends content
    unclear : content ≡ print_lines lines ++ line → Mends content

  -- What an append that stops has left of the log.
  abbrev pub LeftMended : Disk → Type 0
  LeftMended d = (content : List ℕ) × Holds d (live 0) content × Mends content

  module _ (some_lines : lines ≢ []) (records : All (IsRecord json) lines)
      (is_record : IsRecord json line) (unfinished : IsUnfinished) where
    longer-records : All (IsRecord json) longer
    longer-records = All-append (IsRecord json) lines records is_record

    -- The line is not finished.
    partly-Mends : (k : ℕ) → k < length line → Mends (print_lines lines ++ take_bytes k line)
    partly-Mends zero lt =
        let content = print_lines lines ++ [] in
        let r : Recovers json content none = record {
          lines = lines;
          tail = [];
          is_content = refl;
          some_lines = some_lines;
          records = records;
          is_tail = tt;
          is_cut = whole;
        } in
        dropped none ((tail_of_iff json content none).1 r) (append_nil (print_lines lines))
    partly-Mends (suc k) lt =
        let tail = take_bytes (suc k) line in
        let content = print_lines lines ++ tail in
        let (utf8, broken) = unfinished (suc k) lt (λ e. omega (arith, e)) in
        let r : Recovers json content (some (length (print_lines lines))) = record {
          lines = lines;
          tail = tail;
          is_content = refl;
          some_lines = some_lines;
          records = records;
          is_tail = take_bytes-IsLine (suc k) line is_record.is_line;
          is_cut = torn (take_bytes-filled k line lt) utf8 broken;
        } in
        dropped (some (length (print_lines lines)))
          ((tail_of_iff json content (some (length (print_lines lines)))).1 r)
          (take_bytes-append (print_lines lines) tail)

    prefix-Mends :
        (k : ℕ) (bytes : List ℕ) → Begins line k bytes → Mends (print_lines lines ++ bytes)
    prefix-Mends k bytes (partly lt) = partly-Mends k lt
    prefix-Mends k bytes (unended e) = unclear refl
    prefix-Mends k bytes wholly =
        let content = print_lines lines ++ (line ++ 10 ∷ []) in
        let same : content ≡ print_lines longer = sym (print_lines-append lines line) in
        let r : Recovers json content none = record {
          lines = longer;
          tail = [];
          is_content = same ∙ sym (append_nil (print_lines longer));
          some_lines = longer-filled lines line;
          records = longer-records;
          is_tail = tt;
          is_cut = whole;
        } in
        kept ((tail_of_iff json content none).1 r) same

  module _ (now : ℕ) (flock : Flock) (transaction : String) where
    -- The log holds these bytes.
    abbrev Bytes : List ℕ → Disk → Type 0
    Bytes bytes d = Holds d (live 0) bytes

    -- Some beginning of the line, with its newline, is behind the lines.
    abbrev Stopped : Disk → Type 0
    Stopped d = (k : ℕ) × Bytes (print_lines lines ++ take_bytes k (line ++ 10 ∷ [])) d

    untouched : (d : Disk) → Bytes (print_lines lines) d → Stopped d
    untouched d (t, h) =
        (0, (t, h ∙ ap (λ bytes. some (regular bytes t)) (sym (append_nil (print_lines lines)))))

    created :
        (d : Disk)
        → Bytes (print_lines lines) d
        → Bytes (print_lines lines) (create_if_absent now (live 0) d)
    created d (t, h) = (t, rw (create_if_absent, h) h)

    appended :
        (bytes : List ℕ) (d : Disk)
        → Bytes (print_lines lines) d
        → Bytes (print_lines lines ++ bytes) (append_bytes now bytes (live 0) d)
    appended bytes d h = (now, append_bytes-Holds now bytes (live 0) d (print_lines lines) h)

    longer_bytes :
        (d : Disk) → Bytes (print_lines lines ++ (line ++ 10 ∷ [])) d → Bytes (print_lines longer) d
    longer_bytes d (t, h) =
        (t, h ∙ ap (λ bytes. some (regular bytes t)) (sym (print_lines-append lines line)))

    all_written : (d : Disk) → Bytes (print_lines longer) d → Stopped d
    all_written d (t, h) =
        let k = length (line ++ 10 ∷ []) in
        let whole_line : take_bytes k (line ++ 10 ∷ []) ≡ line ++ 10 ∷ [] =
          ap (take_bytes k) (sym (append_nil (line ++ 10 ∷ [])))
          ∙ take_bytes-append (line ++ 10 ∷ []) [] in
        (
          k,
          (
            t,
            h
                ∙ ap (λ bytes. some (regular bytes t))
                    (print_lines-append lines line
                      ∙ ap (λ l. print_lines lines ++ l) (sym whole_line)),
          ),
        )

    write_line-Runs :
        Runs 5
          (Bytes (print_lines lines))
          (write_line json now flock transaction (line ++ 10 ∷ []))
          (λ u. Bytes (print_lines longer))
          Stopped
    unfolding write_line append_line
    write_line-Runs =
        Runs-bind {Q = λ u. Bytes (print_lines lines)} {c = 0} {d = 5}
          (validate_regular_or_absent (live 0)) _
          (Runs-read (λ d. validate_node (get d (live 0)))
            (λ d (t, h). (tt, ap validate_node h, (t, h))))
          (λ u.
            Runs-bind {Q = λ u. Bytes (print_lines lines)} {c = 1} {d = 4}
              (change (create_if_absent now (live 0))) _
              (Runs-change (create_if_absent now (live 0)) created untouched)
              (λ u.
                Runs-bind {Q = λ u. Bytes (print_lines lines)} {c = 1} {d = 3} sync _
                  (Runs-change (λ d. d) (λ d h. h) untouched)
                  (λ u.
                    Runs-bind {Q = λ u. Bytes (print_lines longer)} {c = 1} {d = 2}
                      (append_line json now flock transaction (line ++ 10 ∷ [])) _
                      (Runs-change_or (append_bytes now (line ++ 10 ∷ []) (live 0))
                        (λ t. append_bytes now (take_bytes t (line ++ 10 ∷ [])) (live 0))
                        (λ d h.
                          longer_bytes (append_bytes now (line ++ 10 ∷ []) (live 0) d)
                            (appended (line ++ 10 ∷ []) d h))
                        (λ d t h. (t, appended (take_bytes t (line ++ 10 ∷ [])) d h)))
                      (λ u.
                        Runs-bind {Q = λ u. Bytes (print_lines longer)} {c = 1} {d = 1} sync _
                          (Runs-change (λ d. d) (λ d h. h) all_written)
                          (λ u. Runs-change (λ d. d) (λ d h. h) all_written)))))

    -- To a log of one or more records, the append of a line for a record makes at most 5 calls. On a
    -- machine that makes so many, the log then holds the records and the new one. Where the machine
    -- stops, at whichever call and byte, the next recovery of the file leaves the old records, or these and the new
    -- one, unless exactly the newline of the line is missing. The
    -- bytes of a line that is not finished are UTF-8 and no JSON.
    pub write_line-Outcome :
        (some_lines : lines ≢ []) (records : All (IsRecord json) lines)
        (is_record : IsRecord json line) (unfinished : IsUnfinished) (w : World)
        → Holds w.disk (live 0) (print_lines lines)
        → Outcome 5
            (λ u d. Holds d (live 0) (print_lines longer))
            LeftMended
            w.steps
            (write_line json now flock transaction (line ++ 10 ∷ []) w)
    write_line-Outcome some_lines records is_record unfinished w h =
        Outcome-stop (write_line json now flock transaction (line ++ 10 ∷ []) w)
          (λ d (k, b). (
            print_lines lines ++ take_bytes k (line ++ 10 ∷ []),
            b,
            prefix-Mends some_lines records is_record unfinished k (take_bytes k (line ++ 10 ∷ []))
                (take_bytes-Begins line k),
          ))
          (write_line-Runs.at w h)
