-- ===== src/Virtual/Example.antt =====
-- The identifier and the host name of web/src/virtual.test.ts.
use scweb_vpn.Common.{◌≡◌, refl, ok}
use scweb_vpn.Common.Texts.{Text, lit}
use scweb_vpn.Platform.Base64.{atob}
use scweb_vpn.Virtual.{virtual_hostname}

abbrev pub service_id : Text
service_id = lit "AQIDBAUGBwgJCgsMDQ4PEA"

abbrev pub service_host : Text
service_host = lit "s-aebagbafaydqqcikbmga2dqpca.webvpn.invalid"

pub agent_authority : virtual_hostname service_id ≡ ok service_host
unfolding virtual_hostname atob
agent_authority = refl
