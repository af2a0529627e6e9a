-- ===== src/Console/Pages/ListsLaws.antt =====
-- What a user can do on the lists, and what the buttons of the pages APK and APT do.
use mathlib.Core.Path.{subst}
use apk_cache.Prelude.{
  ℕ, ◌+◌, ◌≤◌, ◌≡◌, ◌↔◌, ◌⊎◌, refl, inl, inr, String, Bool, true, false, List, [], ◌∷◌, map, All,
  str_eq, eq_iff, Bool-cases, arith,
}
use apk_cache.Console.Html.{Html, txt, class_name, Nodes, nodes, is_disabled, NodesSend}
use apk_cache.Console.Components.{code, loading_message, error_message}
use apk_cache.Console.ComponentsLaws.{
  IsQuiet, el-IsQuiet, one_attr, data_table-IsQuiet, pagination_iff,
}
use apk_cache.Console.Script.{Trace, Reply, resolved, rejected, reply, run}
use apk_cache.Console.Pages.Packages.{
  page_count, page_size, Listing, PackageList, Payload, rows_of, total_rows, rows_request, load,
}
use apk_cache.Console.Pages.Lists.{index_reload, reload_button}
use apk_cache.Console.Pages.ListsView.{
  ApkPackage, AptRecord, ListMessage, set_draft, searched, reloaded, turned, or_empty, apk_row,
  apt_row, list_content, list_view, apk_packages_view, apt_records_view,
}

-- What a list that shows the page `shown` of `total` rows offers: any text for the search, the search,
-- the reload, the page before if its number is at least 1, and the next one if its number is at most
-- that of the pages of the rows.
abbrev pub Offers : ℕ → ℕ → ListMessage → Type 0
Offers total shown (set_draft t) = Unit
Offers total shown searched = Unit
Offers total shown reloaded = Unit
Offers total shown (turned n) =
    ((n + 1 ≡ shown) × (1 ≤ n)) ⊎ ((n ≡ shown + 1) × (n ≤ page_count total page_size))

code-IsQuiet : {A : Type 0} (t : String) → IsQuiet {A = A} (code (txt t))
unfolding code
code-IsQuiet t =
    el-IsQuiet "code" (class_name "breakable" ∷ []) (txt t ∷ []) (one_attr "breakable")
      ((λ m s. s), tt)

list_view_iff :
    (error : String) (loading : Bool) (content : List (Html ListMessage)) (m : ListMessage)
    → NodesSend (nodes (list_view error loading content)) m
      ↔ ((error ≡ "") × (loading ≡ false) × NodesSend (nodes content) m)
unfolding list_view error_message loading_message
list_view_iff error loading content m = elim (Bool-cases (str_eq error "")) [
  | inr e ↦
      rw e
        (λ s. absurd (grind arith), λ (h, _, _). absurd (ground (arith, (eq_iff error "").1 h, e)))
  | inl e ↦ elim (Bool-cases loading) [
    | inl l ↦ rw (e, l) (λ s. absurd (grind arith), λ (_, h, _). absurd cc)
    | inr l ↦ rw (e, l) (λ s. ((eq_iff error "").0 e, refl, s), λ (_, _, s). s)
  ]
]

-- A list with its content is what its messages say, if they are those of the content.
view_iff :
    (error : String) (loading : Bool) (content : List (Html ListMessage)) (total shown : ℕ)
    (m : ListMessage)
    → (NodesSend (nodes content) m ↔ Offers total shown m)
    → NodesSend (nodes (list_view error loading content)) m
      ↔ ((error ≡ "") × (loading ≡ false) × Offers total shown m)
view_iff error loading content total shown m offers =
    let view = list_view_iff error loading content m in
    (λ s. let (e, l, c) = view.0 s in (e, l, offers.0 c), λ (e, l, o). view.1 (e, l, offers.1 o))

module _ (decimal : ℕ → String) (format_bytes : ℕ → String) where
  apk_rows-IsQuiet :
      (items : List ApkPackage) → All (All IsQuiet) (map (apk_row decimal format_bytes) items)
  unfolding apk_row
  apk_rows-IsQuiet [] = tt
  apk_rows-IsQuiet (item ∷ items) =
      let quiet : (t : String) → IsQuiet {A = ListMessage} (txt t) = λ t m s. s in
      (
        (
          code-IsQuiet item.index_cache_path,
          (
            quiet item.package_name,
            (
              quiet item.version,
              (quiet item.checksum_algorithm, (quiet (format_bytes item.size_bytes), tt)),
            ),
          ),
        ),
        apk_rows-IsQuiet items,
      )

  list_content_iff :
      (hint : String) (columns : List String) (rows : List (List (Html ListMessage)))
      (draft : String) (total shown : ℕ) (m : ListMessage)
      → All (All IsQuiet) rows
      → NodesSend (nodes (list_content decimal format_bytes hint columns rows draft total shown)) m
        ↔ Offers total shown m
  unfolding list_content is_disabled
  list_content_iff hint columns rows draft total shown m quiet = (to, from m)
    where
      content : Nodes ListMessage
      content = nodes (list_content decimal format_bytes hint columns rows draft total shown)

      to : NodesSend content m → Offers total shown m
      to (inl (inl (e, s))) = absurd (grind arith)
      to (inl (inr (inl (inl (e, inl x))))) = absurd x
      to (inl (inr (inl (inl (e, inr (inl x)))))) = absurd x
      to (inl (inr (inl (inl (e, inr (inr (inl (t, h)))))))) = subst (Offers total shown) h tt
      to (inl (inr (inl (inl (e, inr (inr (inr (inl h)))))))) = subst (Offers total shown) h tt
      to (inl (inr (inl (inl (e, inr (inr (inr (inr x)))))))) = absurd x
      to (inl (inr (inl (inr x)))) = absurd x
      to (inl (inr (inr (inl (inl (e, inl x)))))) = absurd x
      to (inl (inr (inr (inl (inl (e, inr (inl h))))))) = subst (Offers total shown) h tt
      to (inl (inr (inr (inl (inl (e, inr (inr x))))))) = absurd x
      to (inl (inr (inr (inl (inr x))))) = absurd (grind arith)
      to (inl (inr (inr (inr (inl (inl (e, inl x))))))) = absurd x
      to (inl (inr (inr (inr (inl (inl (e, inr (inl h)))))))) = subst (Offers total shown) h tt
      to (inl (inr (inr (inr (inl (inl (e, inr (inr x)))))))) = absurd x
      to (inl (inr (inr (inr (inl (inr x)))))) = absurd (grind arith)
      to (inl (inr (inr (inr (inr x))))) = absurd x
      to (inr (inl s)) = absurd (data_table-IsQuiet decimal columns "" rows quiet m s)
      to (inr (inr (inl s))) =
          let (n, h, where_to) = (pagination_iff decimal total shown page_size turned m).0 s in
          subst (Offers total shown) h where_to
      to (inr (inr (inr x))) = absurd x

      from : (k : ListMessage) → Offers total shown k → NodesSend content k
      from (set_draft t) o = inl (inr (inl (inl (refl, inr (inr (inl (t, refl)))))))
      from searched o = inl (inr (inl (inl (refl, inr (inr (inr (inl refl)))))))
      from reloaded o = inl (inr (inr (inr (inl (inl (refl, inr (inl refl)))))))
      from (turned n) o = inr (
          inr
            (inl ((pagination_iff decimal total shown page_size turned (turned n)).1 (n, refl, o))))

  apt_rows-IsQuiet :
      (items : List AptRecord) → All (All IsQuiet) (map (apt_row decimal format_bytes) items)
  unfolding apt_row
  apt_rows-IsQuiet [] = tt
  apt_rows-IsQuiet (item ∷ items) =
      let quiet : (t : String) → IsQuiet {A = ListMessage} (txt t) = λ t m s. s in
      (
        (
          code-IsQuiet item.source_index_cache_path,
          (
            quiet item.record_type,
            (
              quiet (or_empty item.package_name),
              (
                code-IsQuiet item.filename,
                (quiet (format_bytes item.size_bytes), (code-IsQuiet (or_empty item.sha256), tt)),
              ),
            ),
          ),
        ),
        apt_rows-IsQuiet items,
      )

  -- The list of packages and the list of records offer exactly any text for the search, the search, the
  -- reload, the page before if its number is at least 1 and the next one if its number is at most that
  -- of the pages of the rows, whatever rows are shown, while they show neither an error nor that they
  -- are loading, and none otherwise.
  pub lists_iff :
      (packages : List ApkPackage) (records : List AptRecord) (draft error : String)
      (total shown : ℕ) (loading : Bool) (m : ListMessage)
      → (NodesSend
            (nodes
              (apk_packages_view decimal format_bytes packages draft shown total error loading))
            m
          ↔ ((error ≡ "") × (loading ≡ false) × Offers total shown m))
        × (NodesSend
              (nodes
                (apt_records_view decimal format_bytes records draft shown total error loading))
              m
            ↔ ((error ≡ "") × (loading ≡ false) × Offers total shown m))
  unfolding apk_packages_view apt_records_view
  lists_iff packages records draft error total shown loading m = (
    view_iff error loading _ total shown m (
        list_content_iff "包名/版本" ("Index" ∷ "Package" ∷ "Version" ∷ "Hash" ∷ "Size" ∷ [])
          (map (apk_row decimal format_bytes) packages) draft total shown m
          (apk_rows-IsQuiet packages)),
    view_iff error loading _ total shown m (
        list_content_iff "package / filename / sha256"
          ("Index" ∷ "Type" ∷ "Package" ∷ "Filename" ∷ "Size" ∷ "SHA256" ∷ [])
          (map (apt_row decimal format_bytes) records) draft total shown m
          (apt_rows-IsQuiet records)),
  )

-- What a reload of the index does: it is sent first. If it is refused, the list stays as it was and the
-- message is shown. Otherwise the first page of the text that was shown is asked for, and its rows, or
-- its error, are shown on the first page.
abbrev pub Reloads :
    Listing → PackageList → Trace PackageList Payload → Reply Payload → Reply Payload → Type 0
Reloads listing s t (rejected m) b =
    (t.state ≡ s) × (t.sent ≡ index_reload listing ∷ []) × (t.toasts ≡ (m, false) ∷ [])
Reloads listing s t (resolved p) (resolved q) =
    (t.state
      ≡ record s { page = 1; items = rows_of q; total = total_rows q; error = ""; loading = false })
    × (t.sent ≡ index_reload listing ∷ rows_request listing 1 s.query_text ∷ [])
    × (t.toasts ≡ ("the index was reloaded", true) ∷ [])
Reloads listing s t (resolved p) (rejected m) =
    (t.state ≡ record s { page = 1; error = m; loading = false })
    × (t.sent ≡ index_reload listing ∷ rows_request listing 1 s.query_text ∷ [])
    × (t.toasts ≡ ("the index was reloaded", true) ∷ [])

-- The reload button of a list that shows its first page does that, whatever is answered.
pub reload_button-Reloads :
    (listing : Listing) (s : PackageList) (a b : Reply Payload)
    → s.page ≡ 1
    → Reloads listing s (run (reload_button listing s) (reply a ∷ reply b ∷ []) s) a b
unfolding reload_button load
reload_button-Reloads listing s (rejected m) b h = (refl, refl, refl)
reload_button-Reloads listing s (resolved p) (resolved q) h = rw h (refl, refl, refl)
reload_button-Reloads listing s (resolved p) (rejected m) h = rw h (refl, refl, refl)
