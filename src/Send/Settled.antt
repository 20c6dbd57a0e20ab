-- ===== src/Send/Settled.antt =====
-- gui/web/src/components/layout/request-pane.tsx, `handleSend`: the tabs after the answer, whatever
-- happened on the page since the request went away.
use reqlet.Common.{
  ℕ, ◌≡◌, refl, ◌∙◌, ◌≢◌, String, true, false, Option, none, some, List, ◌++◌, find,
}
use reqlet.Types.Response.{ResponseData}
use reqlet.Types.Tab.{Tab}
use reqlet.Tabs.State.{TabsState, next_id, reopen_last_closed_tab}
use reqlet.Tabs.Patch.{TabPatch, patch_tab}
use reqlet.Tabs.Actions.{has_id, update_tab, close_tab}
use reqlet.Tabs.Valid.{Valid, count_tab}
use reqlet.Tabs.Update.{find-update_tab, find-update_tab_ne, find-append_tab}
use reqlet.Tabs.Reopen.{Around, reopen_last_closed_tab-close_tab}
use reqlet.Workspace.Store.{WorkspaceState}
use reqlet.Backend.{Result, returns, throws}
use reqlet.Backend.Types.{SendResponse}
use reqlet.Send.{Page, Sent, kept_response, response_patch, error_patch, finish_send}

-- The response of a tab after an answer.
abbrev pub response_after : Result SendResponse → Option ResponseData → Option ResponseData
response_after (returns resp) old = some (kept_response resp)
response_after (throws err) old = old

abbrev answer_patch : Result SendResponse → TabPatch
answer_patch (returns resp) = response_patch resp
answer_patch (throws err) = error_patch

answer_patch_id : (result : Result SendResponse) → (answer_patch result).id ≡ none
answer_patch_id (returns resp) = refl
answer_patch_id (throws err) = refl

answer_patch_fields :
    (result : Result SendResponse) (t : Tab)
    → let u = patch_tab (answer_patch result) t in
      (u.is_sending ≡ false)
      × (u.response ≡ response_after result t.response)
      × (u.request ≡ t.request)
answer_patch_fields (returns resp) t = (refl, refl, refl)
answer_patch_fields (throws err) t = (refl, refl, refl)

finish_send-tabs :
    (uuid : ℕ → String) (sent : Sent) (result : Result SendResponse) (p : Page)
    → (finish_send uuid sent result p).tabs
      ≡ update_tab p.tabs sent.active_tab_id (answer_patch result)
unfolding finish_send
finish_send-tabs uuid sent (returns resp) p = refl
finish_send-tabs uuid sent (throws err) p = refl

-- Once a sent request is answered, whatever the answer is and whatever happened to the tabs in
-- between, the tab that sent it is no longer sending if it is still open. It shows the response, or
-- after an error what it showed before, and its request is as it was. No other tab and not the
-- choice of the active tab changes.
pub finish_send_lem :
    (uuid : ℕ → String) (sent : Sent) (result : Result SendResponse) (p : Page) (t : Tab)
    → find (has_id sent.active_tab_id) p.tabs.tabs ≡ some t
    → let q = finish_send uuid sent result p in
      (u : Tab) × (find (has_id sent.active_tab_id) q.tabs.tabs ≡ some u)
      × (u.is_sending ≡ false)
      × (u.response ≡ response_after result t.response)
      × (u.request ≡ t.request)
      × ((a : String)
          → a ≢ sent.active_tab_id
          → find (has_id a) q.tabs.tabs ≡ find (has_id a) p.tabs.tabs)
      × (q.tabs.active_tab_id ≡ p.tabs.active_tab_id)
unfolding update_tab
finish_send_lem uuid sent result p t open_still =
    let (idle, shows, same) = answer_patch_fields result t in
    rw (finish_send-tabs uuid sent result p) (
      patch_tab (answer_patch result) t,
      find-update_tab (answer_patch result) p.tabs sent.active_tab_id t (answer_patch_id result)
          open_still,
      idle,
      shows,
      same,
      λ a ne.
          find-update_tab_ne (answer_patch result) p.tabs sent.active_tab_id a
            (answer_patch_id result) ne,
      refl,
    )

-- A tab that is closed while its request is away and then reopened gets a new id, so the answer does
-- not reach it: whatever the answer, it stays open, active and sending.
pub reopened_tab_keeps_sending :
    (uuid : String) (uuids : ℕ → String) (s closed : TabsState) (before after : List Tab) (x : Tab)
    (sent : Sent) (result : Result SendResponse) (w : WorkspaceState) (toasts : List String)
    → Around s before x after
    → Valid s
    → x.is_sending ≡ true
    → sent.active_tab_id ≡ x.id
    → close_tab s x.id ≡ some closed
    → next_id uuid ≢ x.id
    → count_tab (next_id uuid) (before ++ after) ≡ 0
    → let p : Page = record {
      tabs = reopen_last_closed_tab uuid closed;
      workspace = w;
      toasts = toasts;
    } in
      let q = finish_send uuids sent result p in
      (u : Tab) × (find (has_id (next_id uuid)) q.tabs.tabs ≡ some u)
      × (u.is_sending ≡ true)
      × (q.tabs.active_tab_id ≡ next_id uuid)
reopened_tab_keeps_sending uuid uuids s closed before after x sent result w toasts r v busy is
      is_closed fresh unused =
    let p : Page = record {
      tabs = reopen_last_closed_tab uuid closed;
      workspace = w;
      toasts = toasts;
    } in
    let reopened = reopen_last_closed_tab-close_tab uuid s before after x closed r v is_closed in
    (
      record x { id = next_id uuid },
      rw (finish_send-tabs uuids sent result p) (
          find-update_tab_ne (answer_patch result) p.tabs sent.active_tab_id (next_id uuid)
            (answer_patch_id result) (rw is fresh)
          ∙ rw reopened
              (find-append_tab (before ++ after) (record x { id = next_id uuid }) unused)),
      busy,
      rw (finish_send-tabs uuids sent result p) (unfold update_tab in rw reopened refl),
    )
