-- ===== src/Tests/Fetching.antt =====
-- Runs of the download from Cert Warden.
use zoraxy_cert_warden.Base.{◌≡◌, ◌≢◌, ◌↔◌, true, false, none, List, [], ◌++◌, codes, ◌==◌, str_eq}
use zoraxy_cert_warden.Text.{trim_space}
use zoraxy_cert_warden.Failure.{ok}
use zoraxy_cert_warden.CertWarden.{Client, split_material}
use zoraxy_cert_warden.CertWarden.Bundle.{Item, Bundle}
use zoraxy_cert_warden.CertWarden.Material.{Sequence, split_material_iff}
use zoraxy_cert_warden.CertWarden.Fetch.{
  Http, response, material, fetch_material, Downloaded, fetch_material_iff,
}
use zoraxy_cert_warden.Tests.Fixtures.{crypto, crypto-DecodeRest, cert_pem, key_pem}

split_material_iff_example :
    (split_material crypto (cert_pem ++ key_pem) ≡ ok (cert_pem, key_pem)) ↔ (
      (items : List Item) × Sequence crypto (cert_pem ++ key_pem) items
      × Bundle crypto items cert_pem key_pem
      × (cert_pem ≢ [])
      × (key_pem ≢ []))
split_material_iff_example =
    split_material_iff crypto crypto-DecodeRest (cert_pem ++ key_pem) cert_pem key_pem

abbrev http : Http
http = record {
  exchange = λ url key. response 200 (cert_pem ++ key_pem) none;
  is_request_url = λ url. true;
  path_escape = λ name. name;
  context_expired = false;
}

abbrev client : Client
client = record { base_url = codes "https://ca.test"; api_key = codes "c.k" }

fetch_material_iff_example :
    (fetch_material crypto http client (codes "web") ≡ material cert_pem key_pem 200) ↔ (
      ((trim_space (codes "web") == []) ≡ false)
      × (true ≡ true)
      × Downloaded crypto http client (codes "web") cert_pem key_pem 200)
fetch_material_iff_example =
    fetch_material_iff crypto http client (codes "web") cert_pem key_pem 200
