-- ===== src/Regions/Uris.antt =====
-- The generated URIs against the registered regions and against auth's `FormatTURNServerURL`.
use turnfly.Prelude.{
  ◌≡◌, refl, ap, ap₂, ◌∙◌, Bool, Option, none, some, List, [], ◌∷◌, map, if◌then◌else◌,
}
use turnfly.Text.{Bytes, beq}
use turnfly.Map
use turnfly.Map.{Map, IsMap}
use turnfly.Map.Laws.{get-put, get-erase, put-IsMap, erase-IsMap}
use turnfly.Auth.{format_turn_server_url}
use turnfly.Regions.{
  Region, Store, set, remove, get, list, generate_multi_region_uris, region_uri, port_of,
}

map-cong {ℓ κ} :
    {A : Type ℓ} {B : Type κ} (f g : A → B) (xs : List A)
    → ((a : A) → f a ≡ g a)
    → map f xs ≡ map g xs
map-cong f g [] h = refl
map-cong f g (x ∷ xs) h = ap₂ ◌∷◌ (h x) (map-cong f g xs h)

-- The URIs are those that `FormatTURNServerURL` writes for the registered regions, in the order in
-- which the loop over the store meets them, with the TLS port if TLS is asked for.
pub generate_multi_region_uris_lem :
    (s : Store) (username password : Bytes) (use_tls : Bool)
    → generate_multi_region_uris s username password use_tls
      ≡ map
          (λ (r : Region).
            format_turn_server_url r.host (port_of use_tls r) username password use_tls)
          (list s)
unfolding generate_multi_region_uris list region_uri format_turn_server_url
generate_multi_region_uris_lem s username password use_tls =
    map-cong _ _ (Map.values s.regions) (λ r. refl)

-- Operations on the store, as `Set` and `Remove` calls of the deployment.
pub data Change : Type 0 where
  set_region : Region → Change
  remove_region : Bytes → Change

-- The store behind a sequence of changes.
unfoldable pub apply : Store → List Change → Store
apply s [] = s
apply s (set_region r ∷ cs) = apply (set s r) cs
apply s (remove_region code ∷ cs) = apply (remove s code) cs

-- What the last change of a code leaves, behind what was there.
unfoldable pub latest : Bytes → Option Region → List Change → Option Region
latest code before [] = before
latest code before (set_region r ∷ cs) = latest code (if beq r.code code then some r else before) cs
latest code before (remove_region c ∷ cs) = latest code (if beq c code then none else before) cs

-- After any sequence of Set and Remove calls, Get returns for each code what the last call for
-- this code left, and there is still one entry for each code.
pub apply-get :
    (s : Store) (cs : List Change) (code : Bytes)
    → IsMap s.regions
    → (get (apply s cs) code ≡ latest code (get s code) cs) × IsMap (apply s cs).regions
unfolding apply latest get set remove
apply-get s [] code h = (refl, h)
apply-get s (set_region r ∷ cs) code h =
    let (e, i) = apply-get (set s r) cs code (put-IsMap s.regions r.code r h) in
    (e ∙ ap (λ o. latest code o cs) (get-put s.regions r.code code r), i)
apply-get s (remove_region c ∷ cs) code h =
    let (e, i) = apply-get (remove s c) cs code (erase-IsMap s.regions c h) in
    (e ∙ ap (λ o. latest code o cs) (get-erase s.regions c code), i)
