-- ===== src/Erp/CatalogData.antt =====
-- prisma/catalog-data.ts: the catalogue that the simulated ERP starts with, and the large one.
pub mod Bounds
use Prim.Native.Nat.{◌%◌}
use Prim.Native.String
use casecellshop.Base.{
  ℕ, zero, suc, ◌+◌, ◌-◌, ◌*◌, String, Bool, true, not, Option, none, some, List, [], ◌∷◌, concat,
  decimal, eqb,
}
use casecellshop.Erp.Service.{Erp, ErpCatalogProduct, ErpCatalogCompatibility}

abbrev clear_case : ErpCatalogProduct
clear_case = record {
  id = "prod_case_iphone_15_clear";
  sku = "CASE-IP15-CLEAR";
  name = "Capa Transparente iPhone 15";
  description = "Capa transparente com borda reforcada para iPhone 15.";
  image_url = "https://example.com/images/case-iphone-15-clear.jpg";
  brand = "CaseCell";
  active = true;
  price_cents = 5990;
  erp_qty = 18;
  compatibilities = record { brand = "Apple"; model = "iPhone 15"; slug = "apple-iphone-15" } ∷ [];
}

abbrev black_case : ErpCatalogProduct
black_case = record {
  id = "prod_case_iphone_15_pro_black";
  sku = "CASE-IP15PRO-BLK";
  name = "Capa Premium iPhone 15 Pro";
  description = "Capa premium preta com acabamento fosco para iPhone 15 Pro.";
  image_url = "https://example.com/images/case-iphone-15-pro-black.jpg";
  brand = "CaseCell";
  active = true;
  price_cents = 7990;
  erp_qty = 12;
  compatibilities =
      record { brand = "Apple"; model = "iPhone 15 Pro"; slug = "apple-iphone-15-pro" } ∷ [];
}

abbrev blue_case : ErpCatalogProduct
blue_case = record {
  id = "prod_case_galaxy_s24_blue";
  sku = "CASE-S24-BLUE";
  name = "Capa Silicone Galaxy S24";
  description = "Capa de silicone azul para Galaxy S24.";
  image_url = "https://example.com/images/case-s24-blue.jpg";
  brand = "CaseCell";
  active = true;
  price_cents = 5490;
  erp_qty = 25;
  compatibilities =
      record { brand = "Samsung"; model = "Galaxy S24"; slug = "samsung-galaxy-s24" } ∷ [];
}

abbrev magsafe_case : ErpCatalogProduct
magsafe_case = record {
  id = "prod_case_multifit_magsafe";
  sku = "CASE-MAGSAFE-MULTI";
  name = "Capa MagSafe Multi Fit";
  description = "Capa com suporte MagSafe para modelos selecionados.";
  image_url = "https://example.com/images/case-magsafe-multi.jpg";
  brand = "CaseCell";
  active = true;
  price_cents = 8990;
  erp_qty = 9;
  compatibilities =
      record { brand = "Apple"; model = "iPhone 15"; slug = "apple-iphone-15" }
      ∷ record { brand = "Apple"; model = "iPhone 15 Pro"; slug = "apple-iphone-15-pro" }
      ∷ [];
}

unfoldable pub build_demo_catalog : List ErpCatalogProduct
build_demo_catalog = clear_case ∷ black_case ∷ blue_case ∷ magsafe_case ∷ []

abbrev pub devices : List ErpCatalogCompatibility
devices =
    record { brand = "Apple"; model = "iPhone 15"; slug = "apple-iphone-15" }
    ∷ record { brand = "Apple"; model = "iPhone 15 Pro"; slug = "apple-iphone-15-pro" }
    ∷ record { brand = "Samsung"; model = "Galaxy S24"; slug = "samsung-galaxy-s24" }
    ∷ record { brand = "Samsung"; model = "Galaxy S24 Ultra"; slug = "samsung-galaxy-s24-ultra" }
    ∷ record { brand = "Motorola"; model = "Edge 50"; slug = "motorola-edge-50" }
    ∷ []

-- `devices[index]`, which is undefined past the end.
abbrev pub device_at : ℕ → List ErpCatalogCompatibility → Option ErpCatalogCompatibility
device_at n [] = none
device_at zero (d ∷ ds) = some d
device_at (suc n) (d ∷ ds) = device_at n ds

abbrev text_length : String → ℕ
text_length String.[] = 0
text_length (String.◌∷◌ c s) = text_length s + 1

abbrev zeros : ℕ → String
zeros zero = ""
zeros (suc n) = String.◌++◌ "0" (zeros n)

-- `text.padStart(width, '0')`
abbrev pad_start : ℕ → String → String
pad_start width text = String.◌++◌ (zeros (width - text_length text)) text

abbrev pub seed_id : ℕ → String
seed_id variant = concat ("prod_seed_" ∷ decimal variant ∷ [])

abbrev pub seed_product : ℕ → ErpCatalogCompatibility → ErpCatalogProduct
seed_product variant device = record {
  id = seed_id variant;
  sku = concat ("CASE-SEED-" ∷ pad_start 5 (decimal variant) ∷ []);
  name = concat ("Capa " ∷ device.model ∷ " " ∷ decimal variant ∷ []);
  description =
      concat ("Capa gerada para demonstracao do catalogo grande (" ∷ device.model ∷ ")." ∷ []);
  image_url = concat ("https://example.com/images/seed-" ∷ decimal variant ∷ ".jpg" ∷ []);
  brand = "CaseCell";
  active = not (eqb (variant % 17) 0);
  price_cents = 3990 + (variant % 10) * 500;
  erp_qty = 3 + variant % 40;
  compatibilities = device ∷ [];
}

abbrev pub prepend :
    Option ErpCatalogProduct → Option (List ErpCatalogProduct) → Option (List ErpCatalogProduct)
prepend (some p) (some ps) = some (p ∷ ps)
prepend _ _ = none

abbrev pub seed_at : ℕ → Option ErpCatalogCompatibility → Option ErpCatalogProduct
seed_at index none = none
seed_at index (some device) = some (seed_product (index + 1) device)

-- The products from an index on; `none` stands for the error of a device that is undefined.
unfoldable pub seeds_from : ℕ → ℕ → Option (List ErpCatalogProduct)
seeds_from index zero = some []
seeds_from index (suc left) =
    prepend (seed_at index (device_at (index % 5) devices)) (seeds_from (index + 1) left)

unfoldable pub build_large_catalog : ℕ → Option (List ErpCatalogProduct)
unfolding seeds_from
build_large_catalog size = seeds_from 0 size

-- The fields of `ErpService` when it starts, by the time of its clock.
abbrev pub initial_erp : ℕ → Erp
unfolding build_demo_catalog
initial_erp time = record {
  catalog = build_demo_catalog;
  fail_billing_for = [];
  billing_by_key = [];
  billing_by_order_id = [];
  clock = time;
}
