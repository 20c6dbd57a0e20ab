-- ===== src/AuthPanel/Laws.antt =====
-- gui/web/src/components/layout/auth-panel.tsx: what the fields show after one was changed.
use reqlet.Common.{◌≡◌, refl, String, arith, if◌then◌else◌, nat_eq}
use reqlet.AuthPanel.Fields.{
  bearer_token, place, Field, or_empty, aws_signature_session_token, ntlm_domain, ntlm_workstation,
  shown, edit,
}
use reqlet.Types.Auth.{AuthConfig, AddTo}
use reqlet.AuthPanel.Selects.{Select, jwt_add_to, selected, pick, select_place}
use reqlet.AuthPanel.Tokens.{
  change_bearer_token, change_basic_username, change_basic_password, change_jwt_algorithm,
  change_jwt_secret, change_jwt_payload, change_digest_username, change_digest_password,
  change_ntlm_username, change_ntlm_password, change_ntlm_domain, change_ntlm_workstation,
  change_api_key_key, change_api_key_value, change_jwt_add_to, change_api_key_add_to,
}
use reqlet.AuthPanel.Signed.{
  change_oauth1_consumer_key, change_oauth1_consumer_secret, change_oauth1_token,
  change_oauth1_token_secret, change_oauth1_signature_method, change_oauth2_grant_type,
  change_oauth2_access_token, change_oauth2_token_type, change_hawk_auth_id, change_hawk_auth_key,
  change_hawk_algorithm, change_aws_signature_access_key, change_aws_signature_secret_key,
  change_aws_signature_region, change_aws_signature_service, change_aws_signature_session_token,
  change_akamai_edgegrid_access_token, change_akamai_edgegrid_client_token,
  change_akamai_edgegrid_client_secret, change_akamai_edgegrid_base_url, change_asap_issuer,
  change_asap_audience, change_asap_key_id, change_asap_private_key, change_oauth2_add_token_to,
}
use reqlet.Send.Request.{non_empty}

or_empty-non_empty : (v : String) → or_empty (non_empty v) ≡ v
or_empty-non_empty v = ground arith

shown-edit_text :
    (f g : Field) (v : String) (auth : AuthConfig)
    → shown g (edit f v auth) ≡ (if nat_eq (place f) (place g) then v else shown g auth)
unfolding change_akamai_edgegrid_access_token change_akamai_edgegrid_base_url
    change_akamai_edgegrid_client_secret change_akamai_edgegrid_client_token change_api_key_key
    change_api_key_value change_asap_audience change_asap_issuer change_asap_key_id
    change_asap_private_key change_aws_signature_access_key change_aws_signature_region
    change_aws_signature_secret_key change_aws_signature_service change_aws_signature_session_token
    change_basic_password change_basic_username change_bearer_token change_digest_password
    change_digest_username change_hawk_algorithm change_hawk_auth_id change_hawk_auth_key
    change_jwt_algorithm change_jwt_payload change_jwt_secret change_ntlm_domain
    change_ntlm_password change_ntlm_username change_ntlm_workstation change_oauth1_consumer_key
    change_oauth1_consumer_secret change_oauth1_signature_method change_oauth1_token
    change_oauth1_token_secret change_oauth2_access_token change_oauth2_grant_type
    change_oauth2_token_type
shown-edit_text aws_signature_session_token aws_signature_session_token v auth =
    or_empty-non_empty v
shown-edit_text ntlm_domain ntlm_domain v auth = or_empty-non_empty v
shown-edit_text ntlm_workstation ntlm_workstation v auth = or_empty-non_empty v
shown-edit_text f bearer_token v auth = refl
shown-edit_text f g v auth = refl

selected-edit :
    (f : Field) (s : Select) (v : String) (auth : AuthConfig)
    → (selected s (edit f v auth) ≡ selected s auth) × ((edit f v auth).type ≡ auth.type)
unfolding change_akamai_edgegrid_access_token change_akamai_edgegrid_base_url
    change_akamai_edgegrid_client_secret change_akamai_edgegrid_client_token change_api_key_key
    change_api_key_value change_asap_audience change_asap_issuer change_asap_key_id
    change_asap_private_key change_aws_signature_access_key change_aws_signature_region
    change_aws_signature_secret_key change_aws_signature_service change_aws_signature_session_token
    change_basic_password change_basic_username change_bearer_token change_digest_password
    change_digest_username change_hawk_algorithm change_hawk_auth_id change_hawk_auth_key
    change_jwt_algorithm change_jwt_payload change_jwt_secret change_ntlm_domain
    change_ntlm_password change_ntlm_username change_ntlm_workstation change_oauth1_consumer_key
    change_oauth1_consumer_secret change_oauth1_signature_method change_oauth1_token
    change_oauth1_token_secret change_oauth2_access_token change_oauth2_grant_type
    change_oauth2_token_type
selected-edit bearer_token jwt_add_to v auth = (refl, refl)
selected-edit f jwt_add_to v auth = (refl, refl)
selected-edit f s v auth = (refl, refl)

shown-pick :
    (f : Field) (s : Select) (a : AddTo) (auth : AuthConfig)
    → (shown f (pick s a auth) ≡ shown f auth) × ((pick s a auth).type ≡ auth.type)
unfolding change_jwt_add_to change_api_key_add_to change_oauth2_add_token_to
shown-pick bearer_token jwt_add_to a auth = (refl, refl)
shown-pick f jwt_add_to a auth = (refl, refl)
shown-pick f s a auth = (refl, refl)

selected-pick :
    (s t : Select) (a : AddTo) (auth : AuthConfig)
    → selected t (pick s a auth)
      ≡ (if nat_eq (select_place s) (select_place t) then a else selected t auth)
unfolding change_jwt_add_to change_api_key_add_to change_oauth2_add_token_to
selected-pick jwt_add_to jwt_add_to a auth = refl
selected-pick s jwt_add_to a auth = refl
selected-pick s t a auth = refl

-- After text is typed into a field or chosen for it, that field shows the text; after a place is
-- chosen in an "Add to" select, that select shows the place. Each other field and select of the
-- panel, also of the other types, shows what it did, and the type stays as it was.
pub shown-edit :
    (f g : Field) (s t : Select) (v : String) (a : AddTo) (auth : AuthConfig)
    → ((shown g (edit f v auth) ≡ (if nat_eq (place f) (place g) then v else shown g auth))
        × (selected t (edit f v auth) ≡ selected t auth)
        × ((edit f v auth).type ≡ auth.type))
      × ((selected t (pick s a auth)
            ≡ (if nat_eq (select_place s) (select_place t) then a else selected t auth))
          × (shown g (pick s a auth) ≡ shown g auth)
          × ((pick s a auth).type ≡ auth.type))
shown-edit f g s t v a auth =
    let (places, type_kept) = selected-edit f t v auth in
    let (texts, type_same) = shown-pick g s a auth in
    ((shown-edit_text f g v auth, places, type_kept), (selected-pick s t a auth, texts, type_same))
