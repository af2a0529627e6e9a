-- ===== src/Console/Pages/MirrorsLaws.antt =====
-- What the form of the APT mirrors saves.
use apk_cache.Prelude.{ℕ, zero, suc, ◌≡◌, ◌<◌, refl, ap, String, none, some, List, [], ◌∷◌, arith}
use apk_cache.Console.Json.{Method, id, Request, null}
use apk_cache.Console.Script.{Input, resolved, rejected, reply, run, threw}
use apk_cache.Console.Pages.Mirrors.{
  Mirror, Mirrors, MirrorDraft, empty_mirror, Payload, mirrors_of, mirror_request, load, draft_body,
  draft_of, saving, save, edit,
}

-- What the handler `save` does in the state `s`.
abbrev pub after_save : List (Input Payload) → Mirrors → Mirrors × List Request
after_save inputs s = let t = run (save s.editing_id s.draft) inputs s in (t.state, t.sent)

-- The page after a mirror was opened for editing and saved, and what was sent.
abbrev pub SavesEdited : Mirror → Payload → Payload → Mirrors → Type 0
SavesEdited item p listed s =
    (after_save (reply (resolved p) ∷ reply (resolved listed) ∷ []) (edit item s)).0
    ≡ record s { items = mirrors_of listed; draft = empty_mirror; editing_id = none; error = "" }

abbrev pub SendsEdited : Mirror → Payload → Payload → Mirrors → Type 0
SendsEdited item p listed s =
    (after_save (reply (resolved p) ∷ reply (resolved listed) ∷ []) (edit item s)).1
    ≡ mirror_request Method.put (id item.mirror_id ∷ []) (draft_body (draft_of item))
      ∷ mirror_request Method.get [] null
      ∷ []

saving_edited :
    (n : ℕ) (d : MirrorDraft)
    → 0 < n
    → saving (some n) d ≡ mirror_request Method.put (id n ∷ []) (draft_body d)
unfolding saving
saving_edited zero d h = absurd (omega arith)
saving_edited (suc n) d h = refl

-- A mirror with an id that is opened for editing and saved is stored under its id with its fields;
-- then the list is loaded and the form is empty and for a new mirror.
pub save-edit :
    (item : Mirror) (p listed : Payload) (s : Mirrors)
    → 0 < item.mirror_id
    → SendsEdited item p listed s × SavesEdited item p listed s
unfolding edit save load
save-edit item p listed s h = (
  ap (λ r. r ∷ mirror_request Method.get [] null ∷ [])
      (saving_edited item.mirror_id (draft_of item) h),
  refl,
)

-- A save that is refused throws and leaves the form and its id as they were, so that it can be sent
-- again.
pub refused_save :
    (s : Mirrors) (message : String)
    → ((run (save s.editing_id s.draft) (reply (rejected message) ∷ []) s).state ≡ s)
      × ((run (save s.editing_id s.draft) (reply (rejected message) ∷ []) s).ending ≡ threw message)
      × ((run (save s.editing_id s.draft) (reply (rejected message) ∷ []) s).sent
          ≡ saving s.editing_id s.draft ∷ [])
unfolding save
refused_save s message = (refl, refl, refl)
