-- ===== src/Regions/WellKnown.antt =====
-- internal/regions/regions.go: the names of Fly's regions, as UTF-8 bytes.
use turnfly.Prelude.{[], ◌∷◌, ◌++◌}
use turnfly.Text.{Bytes, codes}
use turnfly.Map.{Map}

-- `WellKnownRegions`
pub well_known_regions : Map Bytes
well_known_regions = record {
  entries =
      (codes "ams", codes "Amsterdam, Netherlands")
      ∷ (codes "arn", codes "Stockholm, Sweden")
      ∷ (codes "atl", codes "Atlanta, Georgia")
      ∷ (codes "bog", codes "Bogot" ++ (195 ∷ 161 ∷ codes ", Colombia"))
      ∷ (codes "bos", codes "Boston, Massachusetts")
      ∷ (codes "cdg", codes "Paris, France")
      ∷ (codes "den", codes "Denver, Colorado")
      ∷ (codes "dfw", codes "Dallas, Texas")
      ∷ (codes "ewr", codes "Newark, New Jersey")
      ∷ (codes "fra", codes "Frankfurt, Germany")
      ∷ (codes "gdl", codes "Guadalajara, Mexico")
      ∷ (codes "gru", codes "S" ++ (195 ∷ 163 ∷ codes "o Paulo, Brazil"))
      ∷ (codes "hkg", codes "Hong Kong")
      ∷ (codes "iad", codes "Ashburn, Virginia")
      ∷ (codes "jnb", codes "Johannesburg, South Africa")
      ∷ (codes "lax", codes "Los Angeles, California")
      ∷ (codes "lhr", codes "London, UK")
      ∷ (codes "maa", codes "Chennai, India")
      ∷ (codes "mad", codes "Madrid, Spain")
      ∷ (codes "mia", codes "Miami, Florida")
      ∷ (codes "nrt", codes "Tokyo, Japan")
      ∷ (codes "ord", codes "Chicago, Illinois")
      ∷ (codes "otp", codes "Bucharest, Romania")
      ∷ (codes "phx", codes "Phoenix, Arizona")
      ∷ (codes "qro", codes "Quer" ++ (195 ∷ 169 ∷ codes "taro, Mexico"))
      ∷ (codes "scl", codes "Santiago, Chile")
      ∷ (codes "sea", codes "Seattle, Washington")
      ∷ (codes "sin", codes "Singapore")
      ∷ (codes "sjc", codes "Sunnyvale, California")
      ∷ (codes "syd", codes "Sydney, Australia")
      ∷ (codes "waw", codes "Warsaw, Poland")
      ∷ (codes "yul", codes "Montreal, Canada")
      ∷ (codes "yyz", codes "Toronto, Canada")
      ∷ [];
}
