-- ===== src/Maps/Examples.antt =====
-- A program's text, and its stack.
use thread_scan.Base.{◌≡◌, refl, List, [], ◌∷◌, some, arith, inl, inr}
use thread_scan.Maps.{Scanned, is_complete, stack_from_addr}
use thread_scan.Maps.Stack.{IsMaps, stack_from_addr_finds}

abbrev maps : List Scanned
maps =
    record { fields = 7; range_begin = 4096; range_end = 8192; next_char = 47; location_fields = 1 }
    ∷ record {
      fields = 7;
      range_begin = 65536;
      range_end = 131072;
      next_char = 10;
      location_fields = 0;
    }
    ∷ []

maps-IsMaps : IsMaps 0 maps
unfolding is_complete
maps-IsMaps = (refl, omega arith, omega arith, (refl, omega arith, omega arith, tt))

stack_from_addr_finds_example :
    stack_from_addr (some maps) 100000 ≡ some (record { low = 65536; high = 131072 })
stack_from_addr_finds_example =
    stack_from_addr_finds 100000 (record { low = 65536; high = 131072 }) maps maps-IsMaps
      (inr (inl (refl, refl, omega arith, omega arith)))
