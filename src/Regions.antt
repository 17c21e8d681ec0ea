-- ===== src/Regions.antt =====
-- internal/regions/regions.go: the registry of deployed regions, and the ICE configuration and
-- the URIs that are generated from it.
pub mod Uris
pub mod WellKnown
mod Tests
use turnfly.Prelude.{◌≡◌, Bool, Option, List, [], ◌∷◌, ◌++◌, map, ℕ, if◌then◌else◌}
use turnfly.Int.{ℤ}
use turnfly.Text.{Bytes, codes}
use turnfly.Text.Decimal.{format_int}
use turnfly.Map
use turnfly.Map.{Map}

pub record Region : Type 0 where
  pub code : Bytes
  pub name : Bytes
  pub host : Bytes
  pub port : ℤ
  pub tls_port : ℤ

pub record IceServer : Type 0 where
  pub urls : List Bytes
  pub username : Bytes
  pub credential : Bytes

pub record IceConfig : Type 0 where
  pub ice_servers : List IceServer

pub record Store : Type 0 where
  pub regions : Map Region

-- `NewStore`
unfoldable pub new_store : Store
new_store = record { regions = Map.empty }

-- `(*Store).Set`
unfoldable pub set : Store → Region → Store
set s r = record { regions = Map.put s.regions r.code r }

-- `(*Store).Remove`
unfoldable pub remove : Store → Bytes → Store
remove s code = record { regions = Map.erase s.regions code }

-- `(*Store).Get`
unfoldable pub get : Store → Bytes → Option Region
get s code = Map.get s.regions code

-- `(*Store).List`
unfoldable pub list : Store → List Region
list s = Map.values s.regions

-- `(*Store).Count`
unfoldable pub count : Store → ℕ
count s = Map.size s.regions

-- The port and the scheme of a region's URIs.
abbrev pub port_of : Bool → Region → ℤ
port_of use_tls r = if use_tls then r.tls_port else r.port

abbrev pub scheme : Bool → Bytes
scheme use_tls = if use_tls then codes "turns" else codes "turn"

-- `"%s:%s:%d?transport=" + transport`
unfoldable pub ice_url : Bool → Region → Bytes → Bytes
ice_url use_tls r transport =
    scheme use_tls
    ++ ((58 ∷ r.host)
        ++ ((58 ∷ format_int (port_of use_tls r)) ++ (codes "?transport=" ++ transport)))

unfoldable pub ice_server : Bytes → Bytes → Bool → Region → IceServer
unfolding ice_url
ice_server username password use_tls r = record {
  urls = ice_url use_tls r (codes "udp") ∷ ice_url use_tls r (codes "tcp") ∷ [];
  username = username;
  credential = password;
}

-- `(*Store).GenerateICEConfig`
unfoldable pub generate_ice_config : Store → Bytes → Bytes → Bool → IceConfig
unfolding ice_server
generate_ice_config s username password use_tls = record {
  ice_servers = map (ice_server username password use_tls) (Map.values s.regions);
}

-- `"%s:%s:%s@%s:%d"`
unfoldable pub region_uri : Bytes → Bytes → Bool → Region → Bytes
region_uri username password use_tls r =
    scheme use_tls
    ++ ((58 ∷ username)
        ++ ((58 ∷ password) ++ ((64 ∷ r.host) ++ (58 ∷ format_int (port_of use_tls r)))))

-- `(*Store).GenerateMultiRegionURIs`
unfoldable pub generate_multi_region_uris : Store → Bytes → Bytes → Bool → List Bytes
unfolding region_uri
generate_multi_region_uris s username password use_tls =
    map (region_uri username password use_tls) (Map.values s.regions)
