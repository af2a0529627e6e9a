-- ===== src/HashStore/DictLaws.antt =====
-- The dictionary of ids in a batch: what is pending is written, and no id changes its text.
use mathlib.Core.Path.{subst}
use apk_cache.Prelude.{
  ◌≡◌, refl, sym, ap, ◌∙◌, inl, inr, ℕ, false, Option, none, some, List, [], ◌∷◌, Bytes, bytes_eq,
  bytes_eq_iff, bytes_eq_refl, Bool-cases,
}
use apk_cache.HashStore.Keys.{dict_by_id_key, dict_by_value_key}
use apk_cache.HashStore.KeyLaws.{dict_by_id, dict_by_value, key_of_eq}
use apk_cache.HashStore.Actuals.{
  Found, found, not_found, get_failed, Write, put, written, Db, done, fails, Config,
}
use apk_cache.HashStore.Ordered.{OrderedDb}
use apk_cache.HashStore.Sources.{Texts, Pending, find_pending, get_dict_strict, ensure_dict}
use apk_cache.HashStore.Writes.{bool_ext, apart}

-- The entries of the one map are in the other.
abbrev pub Extends : Pending → Pending → Type 0
Extends before after =
    (key v : Bytes) → find_pending key before ≡ some v → find_pending key after ≡ some v

-- What is pending is what a change of the rows, such as that of the writes so far, puts into the
-- dictionary.
abbrev pub Holds : Pending → (Bytes → Found → Found) → Type 0
Holds pending change =
    (kind : ℕ) (id v : Bytes) (old : Found)
    → find_pending (kind ∷ id) pending ≡ some v
    → change (dict_by_id_key kind id) old ≡ found v

same_dict :
    (k k' : ℕ) (i i' : Bytes)
    → bytes_eq (dict_by_id_key k i) (dict_by_id_key k' i') ≡ bytes_eq (k ∷ i) (k' ∷ i')
same_dict k k' i i' =
    bool_ext (bytes_eq (dict_by_id_key k i) (dict_by_id_key k' i')) (bytes_eq (k ∷ i) (k' ∷ i'))
      (λ e.
        let same : dict_by_id k i ≡ dict_by_id k' i' =
          key_of_eq (dict_by_id k i) (dict_by_id k' i') tt tt ((bytes_eq_iff _ _).0 e) in
        let kinds : k ≡ k' = cc in let ids : i ≡ i' = cc in (bytes_eq_iff (k ∷ i) (k' ∷ i')).1 (cc))
      (λ e.
        let same : k ∷ i ≡ k' ∷ i' = (bytes_eq_iff (k ∷ i) (k' ∷ i')).0 e in
        let kinds : k ≡ k' = cc in
        let ids : i ≡ i' = cc in
        (bytes_eq_iff _ _).1 (ap (λ x. dict_by_id_key x i) kinds ∙ ap (dict_by_id_key k') ids))

value_apart :
    (k k' : ℕ) (v i : Bytes) → bytes_eq (dict_by_value_key k v) (dict_by_id_key k' i) ≡ false
value_apart k k' v i = apart (dict_by_value k v) (dict_by_id k' i) tt tt (λ e. cc)

pub done_eq : {A : Type 0} (a b : A) → done a ≡ done b → a ≡ b
done_eq a b h = cc

pub some_eq : {A : Type 0} {a b : A} → some a ≡ some b → a ≡ b
some_eq h = cc

module _ (odb : OrderedDb) (c : Config) (t : Texts) where
  -- How an entry came about: it was pending, or it is new.
  pub data Entry (rows : Db.State odb.db) (pending : Pending) (kind : ℕ) (value id : Bytes)
      : Pending → List Write → Type 0 where
    old_entry :
        find_pending (kind ∷ id) pending ≡ some value → Entry rows pending kind value id pending []
    new_entry :
        find_pending (kind ∷ id) pending ≡ none
        → ((w : Bytes) → Db.get odb.db rows (dict_by_id_key kind id) ≡ found w → w ≡ value)
        → Entry rows pending kind value id
            ((kind ∷ id, value) ∷ pending)
            (put (dict_by_id_key kind id) value ∷ put (dict_by_value_key kind value) id ∷ [])

  pub ensure_dict-Entry :
      (rows : Db.State odb.db) (pending after : Pending) (kind : ℕ) (value id : Bytes)
      (ws : List Write)
      → ensure_dict odb c t rows pending kind value id ≡ done (after, ws)
      → Entry rows pending kind value id after ws
  unfolding ensure_dict get_dict_strict
  ensure_dict-Entry rows pending after kind value id ws h =
      by_pending (find_pending (kind ∷ id) pending) refl
    where
      moved :
          (p : Pending × List Write)
          → Entry rows pending kind value id p.0 p.1
          → done p ≡ ensure_dict odb c t rows pending kind value id
          → Entry rows pending kind value id after ws
      moved p entry e =
          subst (λ q. Entry rows pending kind value id q.0 q.1) (done_eq p (after, ws) (e ∙ h))
            entry

      by_row :
          find_pending (kind ∷ id) pending ≡ none
          → (f : Found) → Db.get odb.db rows (dict_by_id_key kind id) ≡ f
          → Entry rows pending kind value id after ws
      by_row n not_found g =
          moved _ (new_entry n (λ w e. absurd (let no : not_found ≡ found w = sym g ∙ e in cc)))
            (sym (rw (n, g, ensure_dict) refl))
      by_row n (get_failed x) g =
          absurd (let no : fails _ ≡ done (after, ws) = rw (n, g, ensure_dict) at h in cc)
      by_row n (found current) g = elim (Bool-cases (bytes_eq current value)) [
        | inr e ↦
            absurd (let no : fails _ ≡ done (after, ws) = rw (n, g, e, ensure_dict) at h in cc)
        | inl e ↦
            moved _
              (new_entry n (λ w q.
                let same : found current ≡ found w = sym g ∙ q in
                let texts : current ≡ w = cc in sym texts ∙ (bytes_eq_iff current value).0 e))
              (sym (rw (n, g, e, ensure_dict) refl))
      ]

      by_pending :
          (o : Option Bytes)
          → find_pending (kind ∷ id) pending ≡ o
          → Entry rows pending kind value id after ws
      by_pending none n = by_row n (Db.get odb.db rows (dict_by_id_key kind id)) refl
      by_pending (some existing) n = elim (Bool-cases (bytes_eq existing value)) [
        | inr e ↦ absurd (let no : fails _ ≡ done (after, ws) = rw (n, e, ensure_dict) at h in cc)
        | inl e ↦
            moved _ (old_entry (n ∙ ap some ((bytes_eq_iff existing value).0 e)))
              (sym (rw (n, e, ensure_dict) refl))
      ]

  module _ (rows : Db.State odb.db) (pending : Pending) (kind : ℕ) (value id : Bytes) where
    pub Entry-Extends :
        {after : Pending} {ws : List Write}
        → Entry rows pending kind value id after ws
        → Extends pending after
    unfolding find_pending
    Entry-Extends (old_entry e) key v h = h
    Entry-Extends (new_entry n _) key v h = elim (Bool-cases (bytes_eq (kind ∷ id) key)) [
      | inr e ↦ rw e h
      | inl e ↦
          let same = (bytes_eq_iff (kind ∷ id) key).0 e in
          absurd (let no : none ≡ some v = sym n ∙ ap (λ x. find_pending x pending) same ∙ h in cc)
    ]

    pub Entry-find :
        {after : Pending} {ws : List Write}
        → Entry rows pending kind value id after ws
        → find_pending (kind ∷ id) after ≡ some value
    unfolding find_pending
    Entry-find (old_entry e) = e
    Entry-find (new_entry n _) = rw (bytes_eq_refl (kind ∷ id)) refl

    pub Entry-Holds :
        {after : Pending} {ws : List Write} (change : Bytes → Found → Found)
        → Entry rows pending kind value id after ws
        → Holds pending change
        → Holds after (λ key old. written ws key (change key old))
    unfolding written find_pending
    Entry-Holds change (old_entry e) h k i v old f = h k i v old f
    Entry-Holds change (new_entry n _) h k i v old f =
        elim (Bool-cases (bytes_eq (kind ∷ id) (k ∷ i))) [
          | inl e ↦
              let texts : value ≡ v = some_eq (rw e at f) in
              rw (same_dict kind k id i, e, value_apart kind k value i) (ap found texts)
          | inr e ↦
              rw (same_dict kind k id i, e, value_apart kind k value i) (h k i v old (rw e at f))
        ]

    -- An id that the database has keeps its text.
    pub Entry-keeps :
        {after : Pending} {ws : List Write}
        → Entry rows pending kind value id after ws
        → (k : ℕ) (i v : Bytes) → Db.get odb.db rows (dict_by_id_key k i) ≡ found v
        → written ws (dict_by_id_key k i) (found v) ≡ found v
    unfolding written
    Entry-keeps (old_entry e) k i v g = refl
    Entry-keeps (new_entry n same) k i v g = elim (Bool-cases (bytes_eq (kind ∷ id) (k ∷ i))) [
      | inl e ↦
          let both = (bytes_eq_iff (kind ∷ id) (k ∷ i)).0 e in
          let kinds : kind ≡ k = cc in
          let ids : id ≡ i = cc in
          let row : Db.get odb.db rows (dict_by_id_key kind id) ≡ found v =
            ap (λ x. Db.get odb.db rows (dict_by_id_key x id)) kinds
            ∙ ap (λ x. Db.get odb.db rows (dict_by_id_key k x)) ids
            ∙ g in
          rw (same_dict kind k id i, e, value_apart kind k value i) (ap found (sym (same v row)))
      | inr e ↦ rw (same_dict kind k id i, e, value_apart kind k value i) refl
    ]
