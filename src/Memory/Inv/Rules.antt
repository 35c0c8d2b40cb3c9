-- ===== src/Memory/Inv/Rules.antt =====
-- The rules by which a change of rows or of groups keeps the invariant of the store.
use check_trung_video.Base.{
  ℕ, ◌≤◌, ◌+◌, ◌==◌, ==_iff, ◌⊎◌, ◌≡◌, ◌∙◌, false≢true, refl, sym, ap, unwrap_or, Bool, true, false,
  Option, none, some, arith, inl, inr, if◌then◌else◌, opt_map, Bool-cases,
}
use check_trung_video.Base.BTreeMap
use check_trung_video.Base.BTreeMap.{
  BTreeMap, get-map_values, get-update_where, get-modify, get-insert,
}
use check_trung_video.Model.Records.{FileKey, FileRecord, Group, key_eq}
use check_trung_video.Memory.{Store}
use check_trung_video.Memory.Inv.{Inv, IsUpdate, AreUpdates, HasGroup}

-- The invariant speaks of the rows, the groups and the allocated ids alone.
pub other_fields-Inv :
    (s s' : Store)
    → s'.files ≡ s.files
    → s'.groups ≡ s.groups
    → s.next_id ≤ s'.next_id
    → Inv s
    → Inv s'
other_fields-Inv s s' ef eg n h = record {
  files_sorted = rw ef h.files_sorted;
  groups_sorted = rw eg h.groups_sorted;
  file_id = λ k r. rw ef (h.file_id k r);
  file_allocated = λ k r e. omega (arith, h.file_allocated k r (rw ef at e));
  group_id = λ k g. rw eg (h.group_id k g);
  group_allocated = λ k g e. omega (arith, h.group_allocated k g (rw eg at e));
  group_exists = λ k r g. rw (ef, eg) (h.group_exists k r g);
  key_unique = λ j k a b. rw ef (h.key_unique j k a b);
}

module _ (s : Store) (h : Inv s) where
  pub files-Inv :
      (files' : BTreeMap FileRecord)
      → BTreeMap.IsSorted files'
      → AreUpdates s files'
      → Inv (record s { files = files' })
  files-Inv files' sorted u = record {
    files_sorted = sorted;
    groups_sorted = h.groups_sorted;
    file_id = λ k r' e. let (r, at, up) = u k r' e in up.same_id ∙ h.file_id k r at;
    file_allocated = λ k r' e. let (r, at, up) = u k r' e in h.file_allocated k r at;
    group_id = h.group_id;
    group_allocated = h.group_allocated;
    group_exists = λ k r' g e. let (r, at, up) = u k r' e in up.grouped g;
    key_unique = λ j k a' b' ea eb same.
        let (a, ata, upa) = u j a' ea in
        let (b, atb, upb) = u k b' eb in
        h.key_unique j k a b ata atb (rw (← upa.same_key, ← upb.same_key) same);
  }

opt_map-some {ℓ κ} :
    {A : Type ℓ} {B : Type κ} (f : A → B) (o : Option A) {b : B}
    → opt_map f o ≡ some b
    → (a : A) × (o ≡ some a) × (b ≡ f a)
opt_map-some f none e = cc e
opt_map-some f (some a) {b} e = (a, refl, ap (unwrap_or b) (sym e))

pub key_eq-sym : (a b : FileKey) → key_eq a b ≡ true → key_eq b a ≡ true
key_eq-sym a b e = ground arith

module _ (s : Store) (h : Inv s) where
  -- A row is a new value of itself.
  pub IsUpdate-refl : (k : ℕ) (r : FileRecord) → BTreeMap.get k s.files ≡ some r → IsUpdate s r r
  IsUpdate-refl k r at = record {
    same_id = refl;
    same_key = refl;
    grouped = λ g e. h.group_exists k r g at e;
  }

  pub update_where-Inv :
      (p : FileRecord → Bool) (f : FileRecord → FileRecord)
      → ((k : ℕ) (r : FileRecord)
          → BTreeMap.get k s.files ≡ some r
          → p r ≡ true
          → IsUpdate s r (f r))
      → Inv (record s { files = BTreeMap.update_where p f s.files })
  update_where-Inv p f u =
      files-Inv s h (BTreeMap.update_where p f s.files)
        (BTreeMap.update_where-IsSorted p f s.files h.files_sorted)
        λ k r' e.
          let (r, at, eq) =
            opt_map-some (λ v. if p v then f v else v) (BTreeMap.get k s.files)
              (sym (get-update_where k p f s.files) ∙ e) in
          (r, at, branch k r r' at eq)
    where
      branch :
          (k : ℕ) (r r' : FileRecord)
          → BTreeMap.get k s.files ≡ some r
          → r' ≡ (if p r then f r else r)
          → IsUpdate s r r'
      branch k r r' at eq = elim (Bool-cases (p r)) [
        | inl t ↦ rw (eq, t) (u k r at t)
        | inr n ↦ rw (eq, n) (IsUpdate-refl k r at)
      ]

  pub modify-Inv :
      (i : ℕ) (f : FileRecord → FileRecord)
      → ((r : FileRecord) → BTreeMap.get i s.files ≡ some r → IsUpdate s r (f r))
      → Inv (record s { files = BTreeMap.modify i f s.files })
  modify-Inv i f u =
      files-Inv s h (BTreeMap.modify i f s.files)
        (BTreeMap.modify-IsSorted i f s.files h.files_sorted)
        λ k r' e. branch k r' (sym (get-modify i k f s.files) ∙ e)
    where
      changed :
          (k : ℕ) (r' : FileRecord)
          → i ≡ k
          → opt_map f (BTreeMap.get k s.files) ≡ some r'
          → (r : FileRecord) × (BTreeMap.get k s.files ≡ some r) × IsUpdate s r r'
      changed k r' ik e =
          let (r, at, eq) = opt_map-some f (BTreeMap.get k s.files) e in
          (r, at, rw eq (u r (rw ik at)))

      branch :
          (k : ℕ) (r' : FileRecord)
          → (if i == k then opt_map f (BTreeMap.get k s.files) else BTreeMap.get k s.files)
            ≡ some r'
          → (r : FileRecord) × (BTreeMap.get k s.files ≡ some r) × IsUpdate s r r'
      branch k r' e = elim (Bool-cases (i == k)) [
        | inl t ↦ changed k r' ((==_iff i k).0 t) (rw t at e)
        | inr n ↦
            let at : BTreeMap.get k s.files ≡ some r' = rw n at e in (r', at, IsUpdate-refl k r' at)
      ]

  pub insert-Inv :
      (i : ℕ) (r r' : FileRecord)
      → BTreeMap.get i s.files ≡ some r
      → IsUpdate s r r'
      → Inv (record s { files = BTreeMap.insert i r' s.files })
  insert-Inv i r r' at u =
      files-Inv s h (BTreeMap.insert i r' s.files)
        (BTreeMap.insert-IsSorted i r' s.files h.files_sorted)
        λ k x e. branch k x (sym (get-insert i k r' s.files) ∙ e)
    where
      changed :
          (k : ℕ) (x : FileRecord)
          → i ≡ k
          → some r' ≡ some x
          → (y : FileRecord) × (BTreeMap.get k s.files ≡ some y) × IsUpdate s y x
      changed k x ik e = let q : r' ≡ x = ap (unwrap_or r') e in (r, rw (← ik) at, rw (← q) u)

      branch :
          (k : ℕ) (x : FileRecord)
          → (if i == k then some r' else BTreeMap.get k s.files) ≡ some x
          → (y : FileRecord) × (BTreeMap.get k s.files ≡ some y) × IsUpdate s y x
      branch k x e = elim (Bool-cases (i == k)) [
        | inl t ↦ changed k x ((==_iff i k).0 t) (rw t at e)
        | inr n ↦
            let same : BTreeMap.get k s.files ≡ some x = rw n at e in
            (x, same, IsUpdate-refl k x same)
      ]

fresh_apart :
    (a b row : FileRecord) → key_eq a.key row.key ≡ false → key_eq a.key b.key ≡ true → ¬ (b ≡ row)
fresh_apart a b row f same e = false≢true (sym f ∙ (rw e at same))

-- A new row, under the next id and with a key of its own.
module _ (s : Store) (h : Inv s) (n : ℕ) (above : s.next_id ≤ n) (row : FileRecord) where
  abbrev pub with_row : Store
  with_row = record s { next_id = n + 1; files = BTreeMap.insert (n + 1) row s.files }

  pub row_at :
      (k : ℕ) (r : FileRecord)
      → BTreeMap.get k with_row.files ≡ some r
      → ((k ≡ n + 1) × (r ≡ row)) ⊎ (BTreeMap.get k s.files ≡ some r)
  row_at k r e = branch (sym (get-insert (n + 1) k row s.files) ∙ e)
    where
      branch :
          (if n + 1 == k then some row else BTreeMap.get k s.files) ≡ some r
          → ((k ≡ n + 1) × (r ≡ row)) ⊎ (BTreeMap.get k s.files ≡ some r)
      branch e' = elim (Bool-cases (n + 1 == k)) [
        | inl t ↦ inl (sym ((==_iff (n + 1) k).0 t), sym (ap (unwrap_or row) (rw t at e')))
        | inr f ↦ inr (rw f at e')
      ]

  pub with_row-Inv :
      row.id ≡ n + 1
      → ((g : ℕ) → row.group_id ≡ some g → HasGroup s.groups g)
      → ((k : ℕ) (r : FileRecord) → BTreeMap.get k s.files ≡ some r → key_eq r.key row.key ≡ false)
      → Inv with_row
  with_row-Inv id grouped fresh = record {
    files_sorted = BTreeMap.insert-IsSorted (n + 1) row s.files h.files_sorted;
    groups_sorted = h.groups_sorted;
    file_id = λ k r e. elim (row_at k r e) [
      | inl (ek, er) ↦ rw (er, ek) id
      | inr old ↦ h.file_id k r old
    ];
    file_allocated = λ k r e. elim (row_at k r e) [
      | inl (ek, er) ↦ omega arith
      | inr old ↦ omega (arith, h.file_allocated k r old)
    ];
    group_id = h.group_id;
    group_allocated = λ k g e. omega (arith, h.group_allocated k g e);
    group_exists = λ k r g e eg. elim (row_at k r e) [
      | inl (ek, er) ↦ grouped g (rw er at eg)
      | inr old ↦ h.group_exists k r g old eg
    ];
    key_unique = λ j k a b ea eb same. unique j k a b (row_at j a ea) (row_at k b eb) same;
  }
    where
      unique :
          (j k : ℕ) (a b : FileRecord)
          → ((j ≡ n + 1) × (a ≡ row)) ⊎ (BTreeMap.get j s.files ≡ some a)
          → ((k ≡ n + 1) × (b ≡ row)) ⊎ (BTreeMap.get k s.files ≡ some b)
          → key_eq a.key b.key ≡ true
          → j ≡ k
      unique j k a b (inl (ej, ea)) (inl (ek, eb)) same = ej ∙ sym ek
      unique j k a b (inl (ej, ea)) (inr ob) same =
          absurd (fresh_apart b a row (fresh k b ob) (key_eq-sym a.key b.key same) ea)
      unique j k a b (inr oa) (inl (ek, eb)) same =
          absurd (fresh_apart a b row (fresh j a oa) same eb)
      unique j k a b (inr oa) (inr ob) same = h.key_unique j k a b oa ob same

-- A change of the groups that drops none, under ids that are allocated by `n`.
module _ (s : Store) (h : Inv s) (n : ℕ) (grows : s.next_id ≤ n) (groups' : BTreeMap Group) where
  abbrev with_groups : Store
  with_groups = record s { next_id = n; groups = groups' }

  pub groups-Inv :
      BTreeMap.IsSorted groups'
      → ((k : ℕ) (g : Group) → BTreeMap.get k groups' ≡ some g → (g.id ≡ k) × (k ≤ n))
      → ((k : ℕ) → HasGroup s.groups k → HasGroup groups' k)
      → Inv with_groups
  groups-Inv sorted ids kept = record {
    files_sorted = h.files_sorted;
    groups_sorted = sorted;
    file_id = h.file_id;
    file_allocated = λ k r e. omega (arith, h.file_allocated k r e);
    group_id = λ k g e. (ids k g e).0;
    group_allocated = λ k g e. (ids k g e).1;
    group_exists = λ k r g e eg. kept g (h.group_exists k r g e eg);
    key_unique = h.key_unique;
  }

-- A new group under the next id.
module _ (s : Store) (h : Inv s) (group : Group) (fits : group.id ≡ s.next_id + 1) where
  inserted_id :
      (k : ℕ) (g : Group)
      → BTreeMap.get k (BTreeMap.insert (s.next_id + 1) group s.groups) ≡ some g
      → (g.id ≡ k) × (k ≤ s.next_id + 1)
  inserted_id k g e = branch (sym (get-insert (s.next_id + 1) k group s.groups) ∙ e)
    where
      branch :
          (if s.next_id + 1 == k then some group else BTreeMap.get k s.groups) ≡ some g
          → (g.id ≡ k) × (k ≤ s.next_id + 1)
      branch e' = elim (Bool-cases (s.next_id + 1 == k)) [
        | inl t ↦
            let ek : s.next_id + 1 ≡ k = (==_iff (s.next_id + 1) k).0 t in
            let eg : group ≡ g = ap (unwrap_or group) (rw t at e') in
            (rw (← eg) (fits ∙ ek), omega arith)
        | inr n ↦
            let at : BTreeMap.get k s.groups ≡ some g = rw n at e' in
            (h.group_id k g at, omega (arith, h.group_allocated k g at))
      ]

  pub insert_group-Inv : Inv (record s {
    next_id = s.next_id + 1;
    groups = BTreeMap.insert (s.next_id + 1) group s.groups;
  })
  insert_group-Inv =
      groups-Inv s h (s.next_id + 1) (omega arith) (BTreeMap.insert (s.next_id + 1) group s.groups)
        (BTreeMap.insert-IsSorted (s.next_id + 1) group s.groups h.groups_sorted) inserted_id
        λ k e. ground (arith, get-insert (s.next_id + 1) k group s.groups)

module _ (s : Store) (h : Inv s) (i : ℕ) (f : Group → Group)
    (same : (g : Group) → (f g).id ≡ g.id) where
  modified_id :
      (k : ℕ) (g : Group)
      → BTreeMap.get k (BTreeMap.modify i f s.groups) ≡ some g
      → (g.id ≡ k) × (k ≤ s.next_id)
  modified_id k g e = branch (sym (get-modify i k f s.groups) ∙ e)
    where
      branch :
          (if i == k then opt_map f (BTreeMap.get k s.groups) else BTreeMap.get k s.groups) ≡ some g
          → (g.id ≡ k) × (k ≤ s.next_id)
      branch e' = elim (Bool-cases (i == k)) [
        | inl t ↦
            let (old, at, eq) = opt_map-some f (BTreeMap.get k s.groups) (rw t at e') in
            (rw eq (same old ∙ h.group_id k old at), h.group_allocated k old at)
        | inr n ↦
            let at : BTreeMap.get k s.groups ≡ some g = rw n at e' in
            (h.group_id k g at, h.group_allocated k g at)
      ]

  pub modify_group-Inv : Inv (record s { groups = BTreeMap.modify i f s.groups })
  modify_group-Inv =
      groups-Inv s h s.next_id (omega arith) (BTreeMap.modify i f s.groups)
        (BTreeMap.modify-IsSorted i f s.groups h.groups_sorted) modified_id
        λ k e. ground (arith, get-modify i k f s.groups)

module _ (s : Store) (h : Inv s) (f : Group → Group) (same : (g : Group) → (f g).id ≡ g.id) where
  mapped_id :
      (k : ℕ) (g : Group)
      → BTreeMap.get k (BTreeMap.map_values f s.groups) ≡ some g
      → (g.id ≡ k) × (k ≤ s.next_id)
  mapped_id k g e =
      let (old, at, eq) =
        opt_map-some f (BTreeMap.get k s.groups) (sym (get-map_values k f s.groups) ∙ e) in
      (rw eq (same old ∙ h.group_id k old at), h.group_allocated k old at)

  pub map_group-Inv : Inv (record s { groups = BTreeMap.map_values f s.groups })
  map_group-Inv =
      groups-Inv s h s.next_id (omega arith) (BTreeMap.map_values f s.groups)
        (BTreeMap.map_values-IsSorted f s.groups h.groups_sorted) mapped_id
        λ k e. ground (arith, get-map_values k f s.groups)

module _ (s : Store) (h : Inv s) where
  -- A new value that leaves id, key and group alone.
  pub same-IsUpdate :
      (k : ℕ) (r r' : FileRecord)
      → BTreeMap.get k s.files ≡ some r
      → r'.id ≡ r.id
      → r'.key ≡ r.key
      → r'.group_id ≡ r.group_id
      → IsUpdate s r r'
  same-IsUpdate k r r' at i e g = record {
    same_id = i;
    same_key = e;
    grouped = λ x ex. h.group_exists k r x at (sym g ∙ ex);
  }
