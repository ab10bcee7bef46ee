-- ===== src/Proxy/Url/Tests.antt =====
-- The settings of one URL.
use fleetsuite.Common.{◌≡◌, refl, ◌≢◌, true, false, some, [], arith}
use fleetsuite.Common.Text.{codes}
use fleetsuite.Proxy.Url.{parse_url}
use fleetsuite.Proxy.Url.RoundTrip.{url_of, parse_url-url_of}

-- The password is `p@:/`.
parse_url-url_of_example :
    parse_url (url_of (codes "app") (codes "p@:/") (codes "db") 6380 2) false
    ≡ some (record {
      tls = true;
      tls_insecure = false;
      host = codes "db";
      port = 6380;
      username = some (codes "app");
      password = some (codes "p@:/");
      db = some 2;
    })
parse_url-url_of_example =
    parse_url-url_of (codes "app") (codes "p@:/") (codes "db") 6380 2 false user_given host_given
      (refl, (refl, (refl, tt))) (refl, (refl, tt)) (refl, (refl, tt)) (omega arith) (omega arith)
  where
    user_given : codes "app" ≢ []
    user_given e = cc

    host_given : codes "db" ≢ []
    host_given e = cc
