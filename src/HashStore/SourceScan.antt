-- ===== src/HashStore/SourceScan.antt =====
-- The rows that the iterator of a source gives are exactly the mappings of the source.
use apk_cache.Prelude.{
  ◌≡◌, ◌<◌, refl, sym, ap, ◌∙◌, inl, inr, Bool, true, false, not, ◌&&◌, none, [], ◌∷◌, ◌++◌, Bytes,
  bytes_eq, bytes_eq_iff, bytes_eq_refl, ◌≢◌, length, Bool-cases, All, arith,
}
use apk_cache.HashStore.Kinds.{HashKind, Result, ok, err}
use apk_cache.HashStore.Keys.{
  source_mapping_key, source_mapping_prefix, decode_source_mapping_key, prefix_upper_bound,
}
use apk_cache.HashStore.KeyLaws.{IsKind, decode-source_mapping_key}
use apk_cache.HashStore.Parts.{append_assoc}
use apk_cache.HashStore.Actuals.{Found, found, not_found, get_failed, Db}
use apk_cache.HashStore.Ordered.{Rows, Has, scanned, OrderedDb}
use apk_cache.HashStore.Range.{has_prefix, has_prefix-eq, is_before, is_below}
use apk_cache.HashStore.Mappings.{decode-IsMapping}
use apk_cache.HashStore.Writes.{bool_ext}
use apk_cache.HashStore.SourceRows.{maps_to, any_row}

abbrev pub is_found : Found → Bool
is_found (found value) = true
is_found not_found = false
is_found (get_failed e) = false

-- A row of an id's bytes
abbrev pub AreBytes : Bytes → Type 0
AreBytes = All (λ b. b < 256)

has_prefix-append : (p rest : Bytes) → has_prefix p (p ++ rest) ≡ true
unfolding has_prefix
has_prefix-append [] rest = refl
has_prefix-append (b ∷ p) rest = ground (arith, has_prefix-append p rest)

prefix_part : (p q rest : Bytes) → length p ≡ length q → has_prefix p (q ++ rest) ≡ true → p ≡ q
unfolding has_prefix
prefix_part [] [] rest n h = refl
prefix_part [] (c ∷ q) rest n h = absurd (omega (arith, n))
prefix_part (b ∷ p) [] rest n h = absurd (omega (arith, n))
prefix_part (b ∷ p) (c ∷ q) rest n h =
    let tail = prefix_part p q rest (omega (arith, n)) (ground (arith, h)) in
    let head : b ≡ c = ground (arith, h) in rw (tail, head) refl

AreBytes-append : (xs ys : Bytes) → AreBytes xs → AreBytes ys → AreBytes (xs ++ ys)
AreBytes-append [] ys h k = k
AreBytes-append (x ∷ xs) ys (hx, h) k = (hx, AreBytes-append xs ys h k)

-- Finding a row that passes a test.
any_row→ :
    (test : Bytes → Bool) (rows : Rows)
    → any_row test rows ≡ true
    → (key : Bytes) × (value : Bytes) × Has key value rows × (test key ≡ true)
any_row→ test [] h = absurd (cc)
any_row→ test ((k, v) ∷ rows) h = elim (Bool-cases (test k)) [
  | inl e ↦ (k, v, inl (refl, refl), e)
  | inr e ↦
      let (key, value, has, t) = any_row→ test rows (ground (arith, h, e)) in
      (key, value, inr has, t)
]

→any_row :
    (test : Bytes → Bool) (rows : Rows) (key value : Bytes)
    → Has key value rows
    → test key ≡ true
    → any_row test rows ≡ true
→any_row test [] key value has h = elim has [ ]
→any_row test ((k, v) ∷ rows) key value (inl (e, f)) h =
    let same : test k ≡ true = ap test e ∙ h in ground (arith, same)
→any_row test ((k, v) ∷ rows) key value (inr has) h =
    ground (arith, →any_row test rows key value has h)

is_found→ : (f : Found) → is_found f ≡ true → (value : Bytes) × (f ≡ found value)
is_found→ (found value) h = (value, refl)
is_found→ not_found h = absurd (cc)
is_found→ (get_failed e) h = absurd (cc)

module _ (odb : OrderedDb) (st : Db.State odb.db) (s : Bytes) (rows : Rows) (sized : length s ≡ 16)
    (bytes : AreBytes s)
    (gave : OrderedDb.scan odb st
        (source_mapping_prefix s)
        (prefix_upper_bound (source_mapping_prefix s))
      ≡ scanned rows none) where
  mapping-AreBytes :
      (i : Bytes) (k : HashKind) → IsKind k → AreBytes i → AreBytes (source_mapping_key s i k)
  unfolding source_mapping_key
  mapping-AreBytes i k is_kind small =
      let last : AreBytes (k ∷ []) =
        (elim is_kind [ inl e ↦ omega (arith, e) | inr e ↦ omega (arith, e) ], tt) in
      (
        omega arith,
        (omega arith, AreBytes-append (s ++ i) (k ∷ []) (AreBytes-append s i bytes small) last),
      )

  own-has_prefix :
      (i : Bytes) (k : HashKind)
      → has_prefix (source_mapping_prefix s) (source_mapping_key s i k) ≡ true
  unfolding has_prefix source_mapping_key source_mapping_prefix
  own-has_prefix i k =
      ap (has_prefix s) (append_assoc s i (k ∷ [])) ∙ has_prefix-append s (i ++ k ∷ [])

  in_range :
      (key : Bytes)
      → AreBytes key
      → has_prefix (source_mapping_prefix s) key ≡ (
          not (is_before key (source_mapping_prefix s))
          && is_below (prefix_upper_bound (source_mapping_prefix s)) key)
  in_range key h = has_prefix-eq (source_mapping_prefix s) key h

  scanned_prefix :
      (key value : Bytes) → Has key value rows → has_prefix (source_mapping_prefix s) key ≡ true
  scanned_prefix key value has =
      let (_, range, small) = (OrderedDb.scan-get odb st _ _ rows gave key value).0 has in
      in_range key small ∙ range

  own_mapping :
      (s' i : Bytes) (k : HashKind)
      → length s' ≡ 16
      → has_prefix (source_mapping_prefix s) (source_mapping_key s' i k) ≡ true
      → s ≡ s'
  unfolding has_prefix source_mapping_key source_mapping_prefix
  own_mapping s' i k sized' h =
      let tail : has_prefix s (s' ++ i ++ k ∷ []) ≡ true = h in
      let same : has_prefix s (s' ++ (i ++ k ∷ [])) ≡ true =
        ap (has_prefix s) (sym (append_assoc s' i (k ∷ []))) ∙ tail in
      prefix_part s s' (i ++ k ∷ []) (sized ∙ sym sized') same

  scanned_mapping :
      (i : Bytes) (k : HashKind) (key value : Bytes)
      → Has key value rows
      → maps_to k i (decode_source_mapping_key key) ≡ true
      → key ≡ source_mapping_key s i k
  scanned_mapping i k key value has h = go (decode_source_mapping_key key) refl
    where
      go :
          (r : Result (Bytes × HashKind))
          → decode_source_mapping_key key ≡ r
          → key ≡ source_mapping_key s i k
      go (err e) d =
          absurd (let no : maps_to k i (err e) ≡ true = ap (maps_to k i) (sym d) ∙ h in cc)
      go (ok (target, kind)) d =
          let m = decode-IsMapping key target kind d in
          let test : maps_to k i (ok (target, kind)) ≡ true = ap (maps_to k i) (sym d) ∙ h in
          let kinds : kind ≡ k = ground (arith, test) in
          let ids : target ≡ i = (bytes_eq_iff target i).0 (ground (arith, test)) in
          let sources = own_mapping m.source_id target kind m.source_length (
            ap (has_prefix (source_mapping_prefix s)) (sym m.is_key)
            ∙ scanned_prefix key value has) in
          m.is_key
          ∙ ap (λ x. source_mapping_key x target kind) (sym sources)
          ∙ ap (λ x. source_mapping_key s x kind) ids
          ∙ ap (source_mapping_key s i) kinds

  -- A row passes a test that only the key of this mapping passes exactly if the mapping is there.
  any_row-eq :
      (test : Bytes → Bool) (i : Bytes) (k : HashKind)
      → IsKind k
      → AreBytes i
      → ((key value : Bytes)
          → Has key value rows
          → test key ≡ true
          → key ≡ source_mapping_key s i k)
      → test (source_mapping_key s i k) ≡ true
      → any_row test rows ≡ is_found (Db.get odb.db st (source_mapping_key s i k))
  any_row-eq test i k is_kind small only own =
      let K = source_mapping_key s i k in
      bool_ext (any_row test rows) (is_found (Db.get odb.db st K))
        (λ e.
          let (key, value, has, passed) = any_row→ test rows e in
          let (there, _, _) = (OrderedDb.scan-get odb st _ _ rows gave key value).0 has in
          ap is_found (ap (Db.get odb.db st) (sym (only key value has passed)) ∙ there))
        (λ e.
          let (value, there) = is_found→ (Db.get odb.db st K) e in
          let bytes_K = mapping-AreBytes i k is_kind small in
          let range = sym (in_range K bytes_K) ∙ own-has_prefix i k in
          →any_row test rows K value
            ((OrderedDb.scan-get odb st _ _ rows gave K value).1 (there, range, bytes_K)) own)

  -- Some row maps the source to the target exactly if the source's mapping to the target is there.
  pub any_row-maps_to :
      (i : Bytes) (k : HashKind)
      → IsKind k
      → length i ≡ 16
      → AreBytes i
      → any_row (λ key. maps_to k i (decode_source_mapping_key key)) rows
        ≡ is_found (Db.get odb.db st (source_mapping_key s i k))
  any_row-maps_to i k is_kind long small =
      any_row-eq (λ key. maps_to k i (decode_source_mapping_key key)) i k is_kind small
        (scanned_mapping i k)
        (ap (maps_to k i) (decode-source_mapping_key s i k (sized, long) is_kind)
          ∙ ground (arith, bytes_eq_refl i))

  -- The key of a mapping of the source is among the rows exactly if it is there.
  pub any_row-own :
      (i : Bytes) (k : HashKind)
      → IsKind k
      → AreBytes i
      → any_row (λ key. bytes_eq key (source_mapping_key s i k)) rows
        ≡ is_found (Db.get odb.db st (source_mapping_key s i k))
  any_row-own i k is_kind small =
      any_row-eq (λ key. bytes_eq key (source_mapping_key s i k)) i k is_kind small
        (λ key value has e. (bytes_eq_iff key (source_mapping_key s i k)).0 e)
        (bytes_eq_refl (source_mapping_key s i k))

  -- The mappings of another source are not among the rows.
  pub any_row-other :
      (s' i : Bytes) (k : HashKind)
      → length s' ≡ 16
      → s ≢ s'
      → any_row (λ key. bytes_eq key (source_mapping_key s' i k)) rows ≡ false
  any_row-other s' i k sized' other =
      elim (Bool-cases (any_row (λ key. bytes_eq key (source_mapping_key s' i k)) rows)) [
        | inr e ↦ e
        | inl e ↦
            let (key, value, has, passed) = any_row→ _ rows e in
            let same = (bytes_eq_iff key (source_mapping_key s' i k)).0 passed in
            absurd (
              other (
                own_mapping s' i k sized' (
                  ap (has_prefix (source_mapping_prefix s)) (sym same)
                  ∙ scanned_prefix key value has)))
      ]
