-- ===== src/Audit/Tails/Recovers.antt =====
-- Which files the recovery accepts, and what it cuts off.
use hp_guardian.Prelude.{
  ℕ, suc, ◌-◌, true, Option, none, some, List, [], ◌∷◌, ◌++◌, ◌≡◌, ◌≢◌, refl, sym, ap, subst, ◌∙◌,
  ◌↔◌, inl, inr, arith, if◌then◌else◌, ◌==◌, nat_eq, ok, err, ok-injective, All, length,
}
use hp_guardian.Audit.Disk.{AuditError, corrupt, take_bytes}
use hp_guardian.Audit.Tails.{Json, split, check_line, check_lines, tail_answer, tail_of}
use hp_guardian.Audit.Tails.Lines.{
  IsLine, print_lines, join_lines, IsSome, print_lines-join, length-print_lines, split-IsSome,
  split-All, join-split, split-join, complete_end-line, complete_end-append, Ending, last_newline,
  take_bytes-append, drop_bytes-append,
}

module _ (json : Json) where
  pub record IsRecord (line : List ℕ) : Type 0 where
    pub is_line : IsLine line
    pub is_filled : line ≢ []
    pub is_object : json.is_object line ≡ some true

  -- The bytes behind the last newline, and the cut that they ask for.
  pub data Cut (size : ℕ) : List ℕ → Option ℕ → Type 0 where
    whole : Cut size [] none
    torn :
        {tail : List ℕ}
        → tail ≢ []
        → json.is_utf8 tail ≡ true
        → json.is_object tail ≡ none
        → Cut size tail (some size)

  pub record Recovers (content : List ℕ) (cut : Option ℕ) : Type 0 where
    pub lines : List (List ℕ)
    pub tail : List ℕ
    pub is_content : content ≡ print_lines lines ++ tail
    pub some_lines : lines ≢ []
    pub records : All IsRecord lines
    pub is_tail : IsLine tail
    pub is_cut : Cut (length (print_lines lines)) tail cut

  check_line-ok : (line : List ℕ) → IsRecord line → check_line json line ≡ ok tt
  check_line-ok [] r = absurd (r.is_filled refl)
  check_line-ok (b ∷ line) r = rw (check_line, r.is_object) refl

  check_line-IsRecord : (line : List ℕ) → IsLine line → check_line json line ≡ ok tt → IsRecord line
  check_line-IsRecord [] h e = cc
  check_line-IsRecord (b ∷ line) h e = record {
    is_line = h;
    is_filled = λ n. cc;
    is_object = ground (arith, e);
  }

  check_lines-ok : (lines : List (List ℕ)) → All IsRecord lines → check_lines json lines ≡ ok tt
  check_lines-ok [] h = refl
  check_lines-ok (line ∷ lines) (r, h) =
      rw (check_lines, check_line-ok line r) (check_lines-ok lines h)

  check_lines-records :
      (lines : List (List ℕ))
      → All IsLine lines
      → check_lines json lines ≡ ok tt
      → All IsRecord lines
  check_lines-records [] h e = tt
  check_lines-records (line ∷ lines) (h, hs) e =
      let first : check_line json line ≡ ok tt = ground (arith, e) in
      let others : check_lines json lines ≡ ok tt = ground (arith, e) in
      (check_line-IsRecord line h first, check_lines-records lines hs others)

  tail_of-line : (content : List ℕ) → IsLine content → tail_of json content ≡ err corrupt
  unfolding tail_of
  tail_of-line content h = rw (tail_of, complete_end-line content h) refl

  tail_of-append :
      (body tail : List ℕ)
      → IsLine tail
      → tail_of json (body ++ 10 ∷ tail) ≡ tail_answer json (split body) tail (suc (length body))
  unfolding tail_of
  tail_of-append body tail h =
      let before : (if suc (length body) == 0
            then []
            else take_bytes (suc (length body) - 1) (body ++ 10 ∷ tail))
          ≡ body =
        grind (arith, take_bytes-append body (10 ∷ tail)) in
      rw (complete_end-append body tail h, before, drop_bytes-append body 10 tail) refl

  tail_answer-Cut :
      (lines : List (List ℕ)) (tail : List ℕ) (n : ℕ) (o : Option ℕ)
      → tail_answer json lines tail n ≡ ok o
      → (check_lines json lines ≡ ok tt) × Cut n tail o
  tail_answer-Cut lines [] n o e =
      let good : check_lines json lines ≡ ok tt = ground (arith, e) in
      let same : tail_answer json lines [] n ≡ ok none = rw (tail_answer, good) refl in
      (good, subst (Cut n []) (ok-injective {E = AuditError} (sym same ∙ e)) whole)
  tail_answer-Cut lines (b ∷ rest) n o e =
      let good : check_lines json lines ≡ ok tt = ground (arith, e) in
      let utf8 : json.is_utf8 (b ∷ rest) ≡ true = ground (arith, e, good) in
      let broken : json.is_object (b ∷ rest) ≡ none = ground (arith, e, good, utf8) in
      let same : tail_answer json lines (b ∷ rest) n ≡ ok (some n) =
        rw (tail_answer, good, utf8, broken) refl in
      (
        good,
        subst (Cut n (b ∷ rest)) (ok-injective {E = AuditError} (sym same ∙ e))
            (torn (λ x. cc) utf8 broken),
      )

  Cut-tail_answer :
      (lines : List (List ℕ)) (tail : List ℕ) (n : ℕ) (o : Option ℕ)
      → check_lines json lines ≡ ok tt
      → Cut n tail o
      → tail_answer json lines tail n ≡ ok o
  Cut-tail_answer lines [] n none good whole = rw (tail_answer, good) refl
  Cut-tail_answer lines [] n (some m) good (torn filled utf8 broken) = absurd (filled refl)
  Cut-tail_answer lines (b ∷ rest) n none good c = elim c [ ]
  Cut-tail_answer lines (b ∷ rest) n (some m) good (torn filled utf8 broken) =
      rw (tail_answer, good, utf8, broken) refl

  -- A file is accepted exactly when it is one or more lines that are JSON objects, each with its newline, and
  -- bytes without a newline behind them that are none, or are UTF-8 and no JSON. The
  -- recovery asks for a truncation exactly where there are such bytes, and to the size of the lines.
  pub tail_of_iff :
      (content : List ℕ) (o : Option ℕ) → (tail_of json content ≡ ok o) ↔ Recovers content o
  tail_of_iff content o = (sound (last_newline content), complete)
    where
      sound : Ending content → tail_of json content ≡ ok o → Recovers content o
      sound (inl line) e = cc (tail_of-line content line, e)
      sound (inr (body, tail, same, line)) e =
          let (good, cut) =
            tail_answer-Cut (split body) tail (suc (length body)) o
              (sym (tail_of-append body tail line) ∙ ap (tail_of json) (sym same) ∙ e) in
          record {
            lines = split body;
            tail = tail;
            is_content =
                same
                ∙ ap (λ l. l ++ 10 ∷ tail) (sym (join-split body))
                ∙ sym (print_lines-join (split body) tail (split-IsSome body));
            some_lines = λ n. subst IsSome n (split-IsSome body);
            records = check_lines-records (split body) (split-All body) good;
            is_tail = line;
            is_cut =
                subst (λ n. Cut n tail o)
                  (ap (λ l. suc (length l)) (sym (join-split body))
                    ∙ sym (length-print_lines (split body) (split-IsSome body)))
                  cut;
          }

      filled : (lines : List (List ℕ)) → lines ≢ [] → IsSome lines
      filled [] h = absurd (h refl)
      filled (line ∷ lines) h = tt

      are_lines : (lines : List (List ℕ)) → All IsRecord lines → All IsLine lines
      are_lines [] h = tt
      are_lines (line ∷ lines) (h, hs) = (h.is_line, are_lines lines hs)

      complete : Recovers content o → tail_of json content ≡ ok o
      complete r =
          let full = filled r.lines r.some_lines in
          let same : split (join_lines r.lines) ≡ r.lines =
            split-join r.lines full (are_lines r.lines r.records) in
          ap (tail_of json) (r.is_content ∙ print_lines-join r.lines r.tail full)
          ∙ tail_of-append (join_lines r.lines) r.tail r.is_tail
          ∙ Cut-tail_answer (split (join_lines r.lines)) r.tail (suc (length (join_lines r.lines)))
              o (ap (check_lines json) same ∙ check_lines-ok r.lines r.records)
              (subst (λ n. Cut n r.tail o) (length-print_lines r.lines full) r.is_cut)
