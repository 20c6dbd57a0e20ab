-- ===== src/SettingsDialog/Saved.antt =====
-- What saving the settings amounts to (gui/web/src/components/layout/settings-dialog.tsx).
use reqlet.Common.{◌≡◌, refl, ap, ◌∙◌, true, false, some, List, [], ◌∷◌, ◌++◌}
use reqlet.Backend.Types.{ServerSettings}
use reqlet.Backend.{Result, returns, throws}
use reqlet.Ui.Settings.{update}
use mathlib.Core.Option
use reqlet.SettingsDialog.{
  Dialog, FormState, FormEdit, picked, patch, edit_form, start_save, finish_save, asked_save,
  local_patch, error_text,
}

-- The edits of the form while the answer is awaited.
unfoldable pub patch_all : List FormEdit → Dialog → Dialog
patch_all [] d = d
patch_all (e ∷ es) d = patch_all es (patch e d)

unfoldable pub edit_all : List FormEdit → FormState → FormState
edit_all [] f = f
edit_all (e ∷ es) f = edit_all es (edit_form e f)

patch_all_form :
    (es : List FormEdit) (d : Dialog) (f : FormState)
    → d.form ≡ some f
    → patch_all es d ≡ record d { form = some (edit_all es f) }
unfolding patch_all edit_all patch
patch_all_form [] d f h = ap (λ o. record d { form = o }) h
patch_all_form (e ∷ es) d f h =
    patch_all_form es (patch e d) (edit_form e f) (ap (Option.map (edit_form e)) h)

-- The dialog after the answer to a save, from the dialog at the time of the save.
abbrev pub Saved : FormState → List FormEdit → Result ServerSettings → Dialog → Dialog → Type 0
Saved sent es (returns updated) before after =
    (after.settings_open ≡ false)
    × (picked after.local_store ≡ sent.local)
    × (update after.local_store (local_patch (picked before.local_store)) ≡ before.local_store)
    × (Option.map (λ (f : FormState). f.backend) after.form ≡ some updated)
Saved sent es (throws e) before after =
    (after.settings_open ≡ before.settings_open)
    × (after.local_store ≡ before.local_store)
    × (after.form ≡ some (edit_all es sent))
    × (after.toasts ≡ before.toasts ++ (error_text e ∷ []))

start_save_form :
    (d : Dialog) (f : FormState)
    → d.form ≡ some f
    → start_save d ≡ (record d { saving = true; form = some f }, some f)
unfolding start_save
start_save_form d f h =
    ap (λ o. asked_save o d) h ∙ ap (λ o. (record d { saving = true; form = o }, some f)) h

finish_save-Saved :
    (f : FormState) (es : List FormEdit) (result : Result ServerSettings) (d : Dialog)
    → let after = finish_save f result (record d { saving = true; form = some (edit_all es f) }) in
      (after.saving ≡ false) × Saved f es result d after
unfolding finish_save update
finish_save-Saved f es (returns updated) d = (refl, (refl, refl, refl, refl))
finish_save-Saved f es (throws e) d = (refl, (refl, refl, refl, refl))

-- A save sends the form. Whatever is edited before the answer, the saving then ends. If the server
-- took the settings, the dialog closes, the page's settings are those of the sent form in the three
-- fields of the form and as before in the others, and the form shows the server's settings. If not,
-- the dialog stays as it was, the page's settings are kept, the form has the edits, and the error is
-- shown.
pub finish_save_lem :
    (d : Dialog) (f : FormState) (es : List FormEdit) (result : Result ServerSettings)
    → d.form ≡ some f
    → let (asking, sent) = start_save d in
      let after = finish_save f result (patch_all es asking) in
      (sent ≡ some f) × (after.saving ≡ false) × Saved f es result d after
finish_save_lem d f es result h =
    rw (start_save_form d f h, patch_all_form es (record d { saving = true; form = some f }) f refl)
      (let (ended, saved) = finish_save-Saved f es result d in (refl, ended, saved))
