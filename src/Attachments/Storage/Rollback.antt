-- ===== src/Attachments/Storage/Rollback.antt =====
-- What a turn whose attachments fail leaves at each path.
use code_harbor.Attachments.Storage.{
  Checked, Disk, Files, Platform, Progress, StoreError, StoredAttachment, UploadedAttachment,
  Written, bad, check_attachment, finish, good, is_inside, is_written, leaves_part,
  max_attachments_per_turn, refuses_write, roll_back, store_attachments, store_each, write_checked,
  write_failed_at, writes,
}
use code_harbor.Common.{
  Bool, Bool-cases, List, Option, Option-cases, String, [], ap, arith, false, if◌then◌else◌, inl,
  inr, length, ltb, nat_eq, none, refl, some, string_eq, sym, true, ℕ, ◌++◌, ◌==◌, ◌||◌, ◌∙◌, ◌∷◌,
  ◌≡◌, ◌⊎◌,
}
use code_harbor.Common.JsMap.{delete, get, get-delete, get-set}

module _ (node : Platform) (disk : Disk) where
  -- What can stand at a path after a failed turn: what stood there before, nothing, the part that the
  -- failed write has left, or a file that the disk did not remove.
  pub data IsLeft (old : Files node) (path : String) : Option (List ℕ) → Type 0 where
    unchanged : IsLeft old path (get old path)
    gone : IsLeft old path none
    part :
        {content : List ℕ} → disk.write path ≡ leaves_part content → IsLeft old path (some content)
    unremoved : {o : Option (List ℕ)} → disk.removes path ≡ false → IsLeft old path o

  abbrev holds_path : String → List StoredAttachment → Bool
  holds_path path [] = false
  holds_path path (made ∷ rest) = made.absolute_path == path || holds_path path rest

  holds_path-append :
      (path : String) (xs : List StoredAttachment) (made : StoredAttachment)
      → holds_path path (xs ++ made ∷ []) ≡ (holds_path path xs || made.absolute_path == path)
  holds_path-append path [] made = ground arith
  holds_path-append path (x ∷ xs) made = ground (arith, holds_path-append path xs made)

  get-cut :
      (files : Files node) (made : StoredAttachment) (path : String)
      → disk.removes path ≡ true
      → get
          (if disk.removes made.absolute_path then delete files made.absolute_path else files)
          path
        ≡ (if made.absolute_path == path then none else get files path)
  get-cut files made path can = elim (Bool-cases (made.absolute_path == path)) [
    | inl same ↦
        let e : made.absolute_path ≡ path = (string_eq.beq_iff made.absolute_path path).0 same in
        let can' : disk.removes made.absolute_path ≡ true = ap disk.removes e ∙ can in
        rw (can', get-delete, same) refl
    | inr other ↦ elim (Bool-cases (disk.removes made.absolute_path)) [
      | inl can' ↦ rw (can', get-delete, other) refl
      | inr no' ↦ rw (no', other) refl
    ]
  ]

  get-roll_back :
      (files : Files node) (stored : List StoredAttachment) (path : String)
      → disk.removes path ≡ true
      → get (roll_back node disk files stored) path
        ≡ (if holds_path path stored then none else get files path)
  unfolding roll_back
  get-roll_back files [] path can = refl
  get-roll_back files (made ∷ rest) path can =
      let cut =
        if disk.removes made.absolute_path then delete files made.absolute_path else files in
      ground (arith, get-roll_back cut rest path can, get-cut files made path can)

  -- A file that was not stored by this turn is as it was, or the part that a failed write has left.
  abbrev Tracks : Files node → String → Progress node → Type 0
  Tracks old path p = (holds_path path p.stored ≡ true) ⊎ IsLeft old path (get p.files path)

  get-write_failed_at :
      (old files : Files node) (at path : String) (w : Written)
      → disk.write at ≡ w
      → IsLeft old path (get files path)
      → IsLeft old path (get (write_failed_at node files at w) path)
  get-write_failed_at old files at path writes e h = h
  get-write_failed_at old files at path refuses_write e h = h
  get-write_failed_at old files at path (leaves_part content) e h = elim (Bool-cases (at == path)) [
    | inl same ↦
        let here : disk.write path ≡ leaves_part content =
          ap disk.write (sym ((string_eq.beq_iff at path).0 same)) ∙ e in
        rw (get-set, same) (part here)
    | inr other ↦ rw (get-set, other) h
  ]

  write_checked-Tracks :
      (old files : Files node) (path : String) (stored : List StoredAttachment) (c : Checked node)
      → (holds_path path stored ≡ true) ⊎ IsLeft old path (get files path)
      → Tracks old path (write_checked node disk files stored c)
  unfolding write_checked
  write_checked-Tracks old files path stored (bad e) h = h
  write_checked-Tracks old files path stored (good made content) h =
      elim (Bool-cases (is_written node (disk.write made.absolute_path))) [
        | inr no' ↦ rw no' (elim h [
          | inl there ↦ inl there
          | inr left ↦ inr (
              get-write_failed_at old files made.absolute_path path (disk.write made.absolute_path)
                refl left)
        ])
        | inl yes' ↦ rw yes' (elim h [
          | inl there ↦ inl (ground (arith, holds_path-append path stored made, there))
          | inr left ↦ elim (Bool-cases (made.absolute_path == path)) [
            | inl here ↦ inl (ground (arith, holds_path-append path stored made, here))
            | inr other ↦ inr (rw (get-set, other) left)
          ]
        ])
      ]

  store_each-Tracks :
      (thread directory path : String) (old : Files node) (p : Progress node)
      (rest : List (String × UploadedAttachment))
      → Tracks old path p
      → Tracks old path (store_each node disk thread directory p rest)
  unfolding store_each
  store_each-Tracks thread directory path old p [] h = h
  store_each-Tracks thread directory path old p ((id, a) ∷ rest) h =
      let next =
        write_checked node disk p.files p.stored (check_attachment node thread directory id a) in
      elim (Option-cases p.failure) [
        | inr (e, broken_off) ↦ rw (broken_off, store_each) h
        | inl none' ↦
            rw (none', store_each)
              (store_each-Tracks thread directory path old next rest (
                write_checked-Tracks old p.files path p.stored
                  (check_attachment node thread directory id a) h))
      ]

  rolled_back-IsLeft :
      (old : Files node) (path : String) (p : Progress node)
      → Tracks old path p
      → IsLeft old path (get (roll_back node disk p.files p.stored) path)
  rolled_back-IsLeft old path p h = elim (Bool-cases (disk.removes path)) [
    | inr stuck ↦ unremoved stuck
    | inl can ↦
        rw (get-roll_back p.files p.stored path can) (elim (Bool-cases (holds_path path p.stored)) [
          | inl stored ↦ rw stored gone
          | inr untouched ↦
              rw untouched
                (elim h [ inl stored ↦ absurd (cc (stored, untouched)) | inr left ↦ left ])
        ])
  ]

  finish-IsLeft :
      (old : Files node) (path : String) (p : Progress node) (e : StoreError)
      → Tracks old path p
      → (finish node disk p).1 ≡ inl e
      → IsLeft old path (get (finish node disk p).0 path)
  unfolding finish
  finish-IsLeft old path p e h broken_off = elim (Option-cases p.failure) [
    | inl none' ↦ absurd (cc (rw (none', finish) at broken_off))
    | inr (e', some') ↦ rw (some', finish) (rolled_back-IsLeft old path p h)
  ]

-- When the attachments of a turn are refused, for whichever of them and whatever reason, every path
-- has the file that it had before the turn, or none, save where the disk fails: where a removal is
-- refused, whose failure the code passes over, and where a failed write has left a part of its file,
-- which stays.
pub store_attachments-rolled_back :
    (node : Platform) (disk : Disk) (files : Files node) (thread : String)
    (roots : Option (String × String)) (attachments : List (String × UploadedAttachment))
    (e : StoreError) (path : String)
    → (store_attachments node disk files thread roots attachments).1 ≡ inl e
    → IsLeft node disk files path
        (get (store_attachments node disk files thread roots attachments).0 path)
unfolding store_attachments
store_attachments-rolled_back node disk files thread roots attachments e path h =
    elim (Bool-cases (ltb max_attachments_per_turn (length attachments))) [
      | inl many' ↦ rw many' unchanged
      | inr few' ↦ elim (Bool-cases (length attachments == 0)) [
        | inl empty ↦ rw (few', empty) unchanged
        | inr some' ↦ elim (Option-cases roots) [
          | inl none' ↦ rw (few', some', none', store_attachments) unchanged
          | inr ((workspace, directory), found) ↦
              elim (Bool-cases (is_inside node workspace directory)) [
                | inr outside ↦ rw (few', some', found, store_attachments, outside) unchanged
                | inl inside ↦
                    let start : Progress node = record {
                      files = files;
                      stored = [];
                      failure = none;
                    } in
                    rw (few', some', found, store_attachments, inside)
                      (finish-IsLeft node disk files path
                        (store_each node disk thread directory start attachments) e
                        (store_each-Tracks node disk thread directory path files start attachments
                          (inr unchanged))
                        (rw (few', some', found, store_attachments, inside) at h))
              ]
        ]
      ]
    ]
