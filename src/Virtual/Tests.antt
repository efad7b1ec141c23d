-- ===== src/Virtual/Tests.antt =====
-- web/src/virtual.test.ts, and the theorems on host names at its identifier.
use scweb_vpn.Common.{◌≡◌, refl, ok, err, message}
use scweb_vpn.Common.Texts.{lit}
use scweb_vpn.Platform.Base64.{atob}
use scweb_vpn.Virtual.Example.{service_id, service_host, agent_authority}
use scweb_vpn.Virtual.{id_bytes, virtual_hostname}
use scweb_vpn.Virtual.Hostname.{Named, virtual_hostname-Named, virtual_hostname_injective}

short_id : virtual_hostname (lit "AQID") ≡ err (message "InvalidCharacterError")
unfolding virtual_hostname atob
short_id = refl

four_bytes : virtual_hostname (lit "AQIDBA") ≡ err (message "服务标识不是 128 位值")
unfolding virtual_hostname atob
four_bytes = refl

-- A second spelling of the same 16 bytes: the last four bits are discarded.
other_spelling : virtual_hostname (lit "AQIDBAUGBwgJCgsMDQ4PEB") ≡ ok service_host
unfolding virtual_hostname atob
other_spelling = refl

virtual_hostname-Named_example : Named service_id service_host
virtual_hostname-Named_example = virtual_hostname-Named service_id service_host agent_authority

virtual_hostname_injective_example : id_bytes service_id ≡ id_bytes (lit "AQIDBAUGBwgJCgsMDQ4PEB")
virtual_hostname_injective_example =
    virtual_hostname_injective service_id (lit "AQIDBAUGBwgJCgsMDQ4PEB") service_host
      agent_authority other_spelling
