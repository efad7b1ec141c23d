-- ===== src/Connection/Session/Constructed.antt =====
-- web/src/connection.ts: the constructor of `DirectConnection`.
use scweb_vpn.Common.{◌≡◌, ◌≢◌, List, [], All, Result, ok, ◌>>◌, >>=-eq-ok}
use scweb_vpn.Common.Texts.{Text}
use scweb_vpn.Connection.Guards.{validate_stun}
use scweb_vpn.Connection.Guards.Stun.{IsStun, validate_stun_iff}
use scweb_vpn.Connection.Session.{Conn}
use scweb_vpn.Connection.Session.Runs.{new_conn}

-- `new DirectConnection(stunURLs, hooks)`.
unfoldable pub new_direct : List Text → Result Conn
new_direct stun_urls = do validate_stun stun_urls; ok new_conn

-- There is an object only for `stun:` servers without credentials, at least one.
pub new_direct-IsStun :
    (stun_urls : List Text) (c : Conn)
    → new_direct stun_urls ≡ ok c
    → (stun_urls ≢ []) × All IsStun stun_urls
unfolding new_direct
new_direct-IsStun stun_urls c h =
    let (done, e, same) = >>=-eq-ok (validate_stun stun_urls) _ h in
    (validate_stun_iff stun_urls).0 e
