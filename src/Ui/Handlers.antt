-- ===== src/Ui/Handlers.antt =====
-- The handlers of a screen, `ClientUiScreen` (src/client/client-ui/screen.cpp). A message is a number,
-- and the table, a `std::unordered_map`, is an association list in which no key is repeated.
use tavernmx.Common.{
  ℕ, ◌≡◌, ◌∙◌, refl, ap, arith, Option, none, some, List, [], ◌∷◌, ◌==◌, Bool-cases, inl, inr,
  if◌then◌else◌,
}

abbrev pub ClientUiMessage : Type 0
ClientUiMessage = ℕ

-- ClientUiScreen::MSG_UPDATE
abbrev pub msg_update : ClientUiMessage
msg_update = 0

abbrev pub Handlers : Type 0 → Type 0
Handlers H = List (ClientUiMessage × H)

pub data Change (H : Type 0) : Type 0 where
  adds : ClientUiMessage → H → Change H
  removes : ClientUiMessage → Change H

module _ {H : Type 0} where
  unfoldable pub find : ClientUiMessage → Handlers H → Option H
  find m [] = none
  find m ((k, h) ∷ t) = if k == m then some h else find m t

  -- `insert_or_assign`
  unfoldable pub add_handler : ClientUiMessage → H → Handlers H → Handlers H
  add_handler m h [] = (m, h) ∷ []
  add_handler m h ((k, g) ∷ t) = if k == m then (k, h) ∷ t else (k, g) ∷ add_handler m h t

  -- `erase`
  unfoldable pub remove_handler : ClientUiMessage → Handlers H → Handlers H
  remove_handler m [] = []
  remove_handler m ((k, g) ∷ t) = if k == m then t else (k, g) ∷ remove_handler m t

  abbrev pub run_on {ℓ} : {S : Type ℓ} → (H → S → S) → Option H → S → S
  run_on run none s = s
  run_on run (some h) s = run h s

  -- What the handler of the message does, and nothing if there is none.
  unfoldable pub call_handler {ℓ} :
      {S : Type ℓ} → (H → S → S) → ClientUiMessage → Handlers H → S → S
  unfolding find
  call_handler run m t s = run_on run (find m t) s

  abbrev pub change : Change H → Handlers H → Handlers H
  change (adds m h) t = add_handler m h t
  change (removes m) t = remove_handler m t

  unfoldable pub change_all : List (Change H) → Handlers H → Handlers H
  change_all [] t = t
  change_all (c ∷ cs) t = change_all cs (change c t)

  -- No key is repeated.
  abbrev IsTable : Handlers H → Type 0
  IsTable [] = Unit
  IsTable ((k, h) ∷ t) = (find k t ≡ none) × IsTable t

  find-add :
      (m j : ClientUiMessage) (h : H) (t : Handlers H)
      → find j (add_handler m h t) ≡ (if m == j then some h else find j t)
  unfolding find add_handler
  find-add m j h [] = refl
  find-add m j h ((k, g) ∷ t) = ground (arith, find-add m j h t)

  find-remove :
      (m j : ClientUiMessage) (t : Handlers H)
      → IsTable t
      → find j (remove_handler m t) ≡ (if m == j then none else find j t)
  unfolding find remove_handler
  find-remove m j [] i = ground arith
  find-remove m j ((k, g) ∷ t) (f, i) = ground (arith, f, find-remove m j t i)

  add-IsTable :
      (m : ClientUiMessage) (h : H) (t : Handlers H) → IsTable t → IsTable (add_handler m h t)
  unfolding find add_handler
  add-IsTable m h [] i = (refl, tt)
  add-IsTable m h ((k, g) ∷ t) (f, i) = elim (Bool-cases (k == m)) [
    | inl e ↦ rw e (f, i)
    | inr e ↦
        let absent : find k (add_handler m h t) ≡ none = ground (arith, f, find-add m k h t) in
        rw e (absent, add-IsTable m h t i)
  ]

  remove-IsTable : (m : ClientUiMessage) (t : Handlers H) → IsTable t → IsTable (remove_handler m t)
  unfolding find remove_handler
  remove-IsTable m [] i = tt
  remove-IsTable m ((k, g) ∷ t) (f, i) = elim (Bool-cases (k == m)) [
    | inl e ↦ rw e i
    | inr e ↦
        let absent : find k (remove_handler m t) ≡ none = ground (arith, f, find-remove m k t i) in
        rw e (absent, remove-IsTable m t i)
  ]

  -- The handler that the changes leave for a message, if it had this one before.
  abbrev pub left_by : ClientUiMessage → List (Change H) → Option H → Option H
  left_by m [] o = o
  left_by m (adds k h ∷ cs) o = left_by m cs (if k == m then some h else o)
  left_by m (removes k ∷ cs) o = left_by m cs (if k == m then none else o)

  find-change_all :
      (m : ClientUiMessage) (cs : List (Change H)) (t : Handlers H)
      → IsTable t
      → find m (change_all cs t) ≡ left_by m cs (find m t)
  unfolding change_all
  find-change_all m [] t i = refl
  find-change_all m (adds k h ∷ cs) t i =
      find-change_all m cs (add_handler k h t) (add-IsTable k h t i)
      ∙ ap (left_by m cs) (find-add k m h t)
  find-change_all m (removes k ∷ cs) t i =
      find-change_all m cs (remove_handler k t) (remove-IsTable k t i)
      ∙ ap (left_by m cs) (find-remove k m t i)

  -- Whatever handlers a screen adds and removes: a message runs the handler that was added for it
  -- last, unless it was removed since, and nothing if there is none.
  pub call_handler-change_all {ℓ} :
      {S : Type ℓ} (run : H → S → S) (m : ClientUiMessage) (cs : List (Change H)) (s : S)
      → call_handler run m (change_all cs []) s ≡ run_on run (left_by m cs none) s
  unfolding call_handler find
  call_handler-change_all run m cs s = ap (λ o. run_on run o s) (find-change_all m cs [] tt)
