-- ===== src/Api/Tokens.antt =====
-- Who passes the check of the token.
use pve_traffic_monitor.Base.{◌≡◌, ◌↔◌, ◌⊎◌, true, [], arith}
use pve_traffic_monitor.Base.Text.{Text, text_eq_iff}
use pve_traffic_monitor.Api.{Request, token_of, is_authorized}

-- A request is answered exactly if no token is configured or it brings the one that is.
pub is_authorized_lem :
    (token : Text) (r : Request)
    → (is_authorized token r ≡ true) ↔ ((token ≡ []) ⊎ (token_of r ≡ token))
unfolding is_authorized
is_authorized_lem token r = ground (arith, text_eq_iff token [], text_eq_iff (token_of r) token)
