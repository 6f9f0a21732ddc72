-- ===== src/Config/Tests.antt =====
-- Settings of a sample relay.
use bundle_broadcaster.Common.{◌≡◌, refl}
use bundle_broadcaster.Samples.{relay}
use bundle_broadcaster.Config.{resolved_url}

bare_url_test :
    resolved_url (record relay { url = "relay.example.org" }) ≡ "https://relay.example.org"
unfolding resolved_url
bare_url_test = refl

full_url_test : resolved_url (record relay { url = "http://localhost:80" }) ≡ "http://localhost:80"
unfolding resolved_url
full_url_test = refl
