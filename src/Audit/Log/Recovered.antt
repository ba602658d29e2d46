-- ===== src/Audit/Log/Recovered.antt =====
-- What a recovery that succeeds has left: files of whole lines, and no trace of a rotation.
use hp_guardian.Prelude.{
  ℕ, zero, suc, ◌+◌, ◌≤◌, ◌<◌, String, Bool, true, false, Option, none, some, List, [], ◌∷◌, ◌++◌,
  ◌≡◌, ◌≢◌, refl, sym, ap, ◌∙◌, subst, arith, ok, ok-injective, if◌then◌else◌, ==_iff, nat_eq, ◌==◌,
  length, Option-cases, Bool-cases, inl, inr, any, All,
}
use hp_guardian.Prelude.Map.{get, insert, get-insert, get-insert_same}
use hp_guardian.Audit.Disk.{
  AuditError, recovery_failed, ManagedPath, path_eq, live, manifest, is_rotation_name, Node,
  regular, symlink, other, Disk, World, done, lift, take_bytes, change, sync, validate_node,
  validate_regular_or_absent, read, bytes_of, read_bytes,
}
use hp_guardian.Audit.Rotation.{recover_manifest}
use hp_guardian.Audit.Tails.{Json, tail_of}
use hp_guardian.Audit.Tails.Lines.{print_lines, take_bytes-append}
use hp_guardian.Audit.Tails.Recovers.{IsRecord, Cut, whole, torn, Recovers, tail_of_iff}
use hp_guardian.Audit.Log.{
  AuditLogConfig, Flock, set_len, truncate, recover_tail, recover_files, has_rotation_file,
  recover_tails,
}
use hp_guardian.Audit.Log.Appended.{Holds}
use hp_guardian.Audit.Yields.{
  Yields, Success, Success-ok, Yields-bind, Yields-read, Yields-if, Yields-fail, Yields-change,
  Yields-any, Yields-done, Yields-weaken,
}

pub append_nil : (xs : List ℕ) → xs ++ [] ≡ xs
append_nil [] = refl
append_nil (x ∷ xs) = ap (λ l. x ∷ l) (append_nil xs)

any-insert :
    (d : Disk) (index : ℕ) (node : Node)
    → any d (λ (p, n). is_rotation_name p) ≡ false
    → any (insert d (live index) node) (λ (p, n). is_rotation_name p) ≡ false
unfolding insert
any-insert [] index node h = refl
any-insert ((p, n) ∷ d) index node h = ground (arith, any-insert d index node)

-- The bytes that are left.
abbrev pub left_of : Option ℕ → List ℕ → List ℕ
left_of none content = content
left_of (some size) content = take_bytes size content

module _ (json : Json) where
  -- Nothing, or a regular file of one or more records, each with its newline.
  pub data HasRecords (d : Disk) (p : ManagedPath) : Type 0 where
    absent : get d p ≡ none → HasRecords d p
    records :
        (lines : List (List ℕ)) (time : ℕ)
        → get d p ≡ some (regular (print_lines lines) time)
        → lines ≢ []
        → All (IsRecord json) lines
        → HasRecords d p

module _ (json : Json) (now : ℕ) (flock : Flock) (transaction : String) where
  abbrev Lower : ℕ → Disk → Type 0
  Lower index d =
      (any d (λ (p, node). is_rotation_name p) ≡ false)
      × ((j : ℕ) → j < index → HasRecords json d (live j))

  HasRecords-get :
      (d d' : Disk) (p : ManagedPath)
      → get d' p ≡ get d p
      → HasRecords json d p
      → HasRecords json d' p
  HasRecords-get d d' p same (absent e) = absent (same ∙ e)
  HasRecords-get d d' p same (records lines time e filled all) =
      records lines time (same ∙ e) filled all

  Lower-suc :
      (index : ℕ) (d : Disk) → Lower index d → HasRecords json d (live index) → Lower (suc index) d
  Lower-suc index d (clean, below) here = (
    clean,
    λ j lt. elim (Bool-cases (j == index)) [
      | inl same ↦ subst (λ i. HasRecords json d (live i)) (sym ((==_iff j index).0 same)) here
      | inr distinct ↦ below j (grind arith)
    ],
  )

  Lower-insert :
      (index : ℕ) (d : Disk) (node : Node)
      → Lower index d
      → Lower index (insert d (live index) node)
  Lower-insert index d node (clean, below) = (
    any-insert d index node clean,
    λ j lt.
        HasRecords-get d (insert d (live index) node) (live j)
          (get-insert d (live index) (live j) node ∙ ground (arith, lt)) (below j lt),
  )

  left_of-Cut :
      (lines : List (List ℕ)) (tail : List ℕ) (cut : Option ℕ)
      → Cut json (length (print_lines lines)) tail cut
      → left_of cut (print_lines lines ++ tail) ≡ print_lines lines
  left_of-Cut lines tail none whole = append_nil (print_lines lines)
  left_of-Cut lines tail (some size) (torn filled utf8 broken) =
      take_bytes-append (print_lines lines) tail

  -- The rest of a file that was accepted is records.
  left_of-records :
      (content : List ℕ) (cut : Option ℕ) (d : Disk) (p : ManagedPath) (time : ℕ)
      → tail_of json content ≡ ok cut
      → get d p ≡ some (regular (left_of cut content) time)
      → HasRecords json d p
  left_of-records content cut d p time e there =
      let r : Recovers json content cut = (tail_of_iff json content cut).0 e in
      let same : left_of cut content ≡ print_lines r.lines =
        ap (left_of cut) r.is_content ∙ left_of-Cut r.lines r.tail cut r.is_cut in
      records r.lines time (there ∙ ap (λ bytes. some (regular bytes time)) same) r.some_lines
        r.records

  truncate-Yields :
      (index : ℕ) (cut : Option ℕ)
      → Yields
          (λ d.
            (content : List ℕ) × Holds d (live index) content
            × (tail_of json content ≡ ok cut)
            × Lower index d)
          (truncate json now flock transaction (live index) cut)
          (λ u. Lower (suc index))
  truncate-Yields index none = Yields-done tt (λ d (content, (time, there), e, below).
      Lower-suc index d below (left_of-records content none d (live index) time e there))
  truncate-Yields index (some size) =
      Yields-bind {Q = λ u. Lower (suc index)} (change (set_len now size (live index))) _
        (Yields-change (set_len now size (live index)) (λ d (content, (time, there), e, below).
          let cut = insert d (live index) (regular (take_bytes size content) now) in
          let same : set_len now size (live index) d ≡ cut = rw (set_len, there) refl in
          subst (Lower (suc index)) (sym same) (
            Lower-suc index cut (Lower-insert index d (regular (take_bytes size content) now) below)
              (left_of-records content (some size) cut (live index) now e
                (get-insert_same d (live index) (regular (take_bytes size content) now))))))
        (λ u.
          Yields-bind {Q = λ u. Lower (suc index)} sync _ (Yields-change (λ d. d) (λ d h. h))
            (λ u. Yields-change (λ d. d) (λ d h. h)))

  bytes_of-Holds :
      (d : Disk) (p : ManagedPath) (content : List ℕ)
      → bytes_of (get d p) ≡ ok content
      → Holds d p content
  bytes_of-Holds d p content e = elim (Option-cases (get d p)) [
    | inl gone ↦ cc (e, gone)
    | inr (regular bytes time, there) ↦ (time, ground (arith, e, there))
    | inr (symlink, there) ↦ cc (e, there)
    | inr (other, there) ↦ cc (e, there)
  ]

  recover_tail-Yields :
      (index : ℕ)
      → Yields
          (Lower index)
          (recover_tail json now flock transaction (live index))
          (λ u. Lower (suc index))
  unfolding recover_tail
  recover_tail-Yields index =
      Yields-bind {Q = λ u. Lower index} (validate_regular_or_absent (live index)) _
        (Yields-read (λ d. validate_node (get d (live index))) (λ d below u e. below))
        (λ u.
          Yields-bind {Q = λ content d. Holds d (live index) content × Lower index d}
            (read_bytes (live index)) _
            (Yields-read (λ d. bytes_of (get d (live index)))
              (λ d below content e. (bytes_of-Holds d (live index) content e, below)))
            (λ content.
              Yields-bind
                {Q = λ cut d.
                  (c : List ℕ) × Holds d (live index) c × (tail_of json c ≡ ok cut) × Lower index d}
                (lift (tail_of json content)) _
                (Yields-read (λ d. tail_of json content)
                  (λ d (there, below) cut e. (content, there, e, below)))
                (λ cut. truncate-Yields index cut)))

  is_there : Option Node → Bool
  is_there none = false
  is_there (some node) = true

  recover_files-Yields :
      (n index : ℕ)
      → Yields
          (Lower index)
          (recover_files json now flock transaction index n)
          (λ u. Lower (index + n))
  unfolding recover_files
  recover_files-Yields zero index =
      Yields-done tt (λ d below. subst (λ k. Lower k d) (omega arith) below)
  recover_files-Yields (suc n) index =
      Yields-bind {Q = λ u. Lower index} (validate_regular_or_absent (live index)) _
        (Yields-read (λ d. validate_node (get d (live index))) (λ d below u e. below))
        (λ u.
          Yields-bind
            {Q = λ present d. Lower index d × (present ≡ false → get d (live index) ≡ none)}
            (read (λ d. ok (elim (get d (live index)) [ none ↦ false | some node ↦ true ]))) _
            (Yields-read (λ d. ok (elim (get d (live index)) [ none ↦ false | some node ↦ true ]))
              (λ d below present e. (below, λ missing. ground (arith, e, missing))))
            (λ present.
              Yields-bind {Q = λ u. Lower (suc index)}
                (if present then recover_tail json now flock transaction (live index) else done tt)
                _
                (Yields-if present _ _
                  (λ present_here.
                    Yields-weaken _ (recover_tail-Yields index) (λ d (below, gone). below)
                      (λ u d h. h))
                  (λ missing.
                    Yields-done tt
                      (λ d (below, gone). Lower-suc index d below (absent (gone missing)))))
                (λ u.
                  Yields-weaken _ (recover_files-Yields n (index + 1))
                    (λ d h. subst (λ k. Lower k d) (omega arith) h)
                    (λ u d h. subst (λ k. Lower k d) (omega arith) h))))

  recover_tails-Yields :
      (config : AuditLogConfig)
      → Yields
          (λ d. Unit {0})
          (recover_tails json now flock transaction config)
          (λ u. Lower (config.max_rotated_files + 1))
  unfolding recover_tails
  recover_tails-Yields config =
      Yields-bind (validate_regular_or_absent manifest) _ (Yields-any _) (λ u.
        Yields-bind (read (λ d. ok (elim (get d manifest) [ none ↦ false | some node ↦ true ]))) _
          (Yields-any _)
          (λ present.
            Yields-bind (if present then recover_manifest json.codec now else done tt) _
              (Yields-any _)
              (λ u.
                Yields-bind
                  {Q = λ unexpected d. any d (λ (p, node). is_rotation_name p) ≡ unexpected}
                  (read (λ d. ok (has_rotation_file d))) _
                  (Yields-read (λ d. ok (has_rotation_file d))
                    (λ d u unexpected e. ok-injective {E = AuditError} e))
                  (λ unexpected.
                    Yields-if unexpected _ _ (λ yes. Yields-fail recovery_failed)
                      (λ clean.
                        Yields-weaken _ (recover_files-Yields (config.max_rotated_files + 1) 0)
                          (λ d same. (same ∙ clean, λ j lt. absurd (omega (arith, lt))))
                          (λ u d h. subst (λ k. Lower k d) (omega arith) h))))))

  -- After a recovery that succeeds, whatever the disk was, no name of a rotation is left, and
  -- the log and each backup that the configuration keeps is absent or a regular file of one or more
  -- records, each with its newline.
  pub recover_tails-ok :
      (config : AuditLogConfig) (w w' : World)
      → recover_tails json now flock transaction config w ≡ (ok tt, w')
      → (has_rotation_file w'.disk ≡ false)
        × ((index : ℕ) → index ≤ config.max_rotated_files → HasRecords json w'.disk (live index))
  recover_tails-ok config w w' e =
      let (clean, below) = Success-ok {Q = λ u. Lower (config.max_rotated_files + 1)} tt w' (
        subst (Success (λ u. Lower (config.max_rotated_files + 1))) e
          ((recover_tails-Yields config).at w tt)) in
      (clean, λ index le. below index (omega arith))
