-- ===== src/Regions/Tests.antt =====
-- A store with two regions.
use turnfly.Prelude.{◌≡◌, refl, true, [], ◌∷◌, map}
use turnfly.Int.{pos}
use turnfly.Text.{codes}
use turnfly.Text.Decimal
use turnfly.Map
use turnfly.Map.{IsMap}
use turnfly.Map.Laws.{empty-IsMap, put-IsMap}
use turnfly.Auth.{format_turn_server_url}
use turnfly.Regions
use turnfly.Regions.{Region, Store, new_store, set, get, list, port_of, generate_multi_region_uris}
use turnfly.Regions.Uris.{
  set_region, remove_region, apply, latest, apply-get, generate_multi_region_uris_lem,
}

abbrev ashburn : Region
ashburn = record {
  code = codes "iad";
  name = codes "Ashburn, Virginia";
  host = codes "1.2.3.4";
  port = pos 3478;
  tls_port = pos 5349;
}

abbrev paris : Region
paris = record {
  code = codes "cdg";
  name = codes "Paris, France";
  host = codes "5.6.7.8";
  port = pos 3478;
  tls_port = pos 5349;
}

abbrev one_region : Store
unfolding new_store set
one_region = set new_store ashburn

one_uri :
    generate_multi_region_uris one_region (codes "u") (codes "p") true
    ≡ codes "turns:u:p@1.2.3.4:5349" ∷ []
unfolding generate_multi_region_uris Regions.region_uri new_store set Map.values Map.put Map.empty
    Decimal.format_int Decimal.digits
one_uri = refl

uris_written :
    generate_multi_region_uris one_region (codes "u") (codes "p") true
    ≡ map
        (λ (r : Region).
          format_turn_server_url r.host (port_of true r) (codes "u") (codes "p") true)
        (list one_region)
uris_written = generate_multi_region_uris_lem one_region (codes "u") (codes "p") true

history_found :
    (get (apply one_region (set_region paris ∷ remove_region (codes "iad") ∷ [])) (codes "cdg")
      ≡ latest
          (codes "cdg")
          (get one_region (codes "cdg"))
          (set_region paris ∷ remove_region (codes "iad") ∷ []))
    × IsMap (apply one_region (set_region paris ∷ remove_region (codes "iad") ∷ [])).regions
unfolding new_store set
history_found =
    apply-get one_region (set_region paris ∷ remove_region (codes "iad") ∷ []) (codes "cdg")
      (put-IsMap Map.empty (codes "iad") ashburn empty-IsMap)
