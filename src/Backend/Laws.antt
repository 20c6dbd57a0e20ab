-- ===== src/Backend/Laws.antt =====
-- gui/web/src/lib/backend.ts: when a cancelled request counts as cancelled, and what an id can do to
-- the path of a call.
use reqlet.Common.{ℕ, ◌≤◌, ◌≡◌, refl, ◌⊎◌, ◌↔◌, String, false, Option, none, some, arith}
use reqlet.Backend.{
  Call, Answer, unreachable, reply, returns, cancel_call, cancel_request, cancelled,
}

-- The status of a reply that arrived.
abbrev pub status_of : {A : Type 0} → Answer A → Option ℕ
status_of (unreachable reason) = none
status_of (reply status err value) = some status

cancelled_lem :
    (a : Answer Unit)
    → (cancelled a ≡ returns tt) ↔ (
        (status : ℕ) × (status_of a ≡ some status)
        × (((200 ≤ status) × (status ≤ 299)) ⊎ (status ≡ 404)))
cancelled_lem (unreachable reason) = (λ h. cc, λ (n, h, _). cc)
cancelled_lem (reply status err value) =
    (λ h. (status, refl, ground arith), λ (n, h, k). ground arith)

-- Outside Wails, a cancellation returns exactly when a reply arrives whose status is a success or
-- 404, which the server sends for a request that is no longer running; it throws in all other cases.
pub cancel_request_lem :
    (fetch : Call → Answer Unit) (id : String)
    → (cancel_request false fetch id ≡ returns tt) ↔ (
        (status : ℕ) × (status_of (fetch (cancel_call id)) ≡ some status)
        × (((200 ≤ status) × (status ≤ 299)) ⊎ (status ≡ 404)))
unfolding cancel_request
cancel_request_lem fetch id = cancelled_lem (fetch (cancel_call id))
