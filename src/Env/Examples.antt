-- ===== src/Env/Examples.antt =====
-- The setting and the layout at concrete values of the variable.
use thread_scan.Base.{◌^◌, ◌≡◌, ◌≤◌, ◌<◌, ◌+◌, ◌*◌, ◌/◌, ◌%◌, ◌-◌, refl, none, some}
use thread_scan.Env.{get_int, spread, round_up, clamp, env_init, round_to_page, register_layout}
use thread_scan.Env.Bounds.{IsSetting, env_init-IsSetting, register_layout_fits}

env_init-default : env_init none ≡ 4096
unfolding env_init get_int clamp round_up spread
env_init-default = refl

env_init-rounds : env_init (some 5) ≡ 8192
unfolding env_init get_int clamp round_up spread
env_init-rounds = refl

-- -1, and a number whose product wraps.
env_init-negative : env_init (some (2 ^ 32 - 1)) ≡ 1024
unfolding env_init get_int clamp round_up spread
env_init-negative = refl

env_init-wraps : env_init (some (2 ^ 22 + 2)) ≡ 2048
unfolding env_init get_int clamp round_up spread
env_init-wraps = refl

register_layout-default : (register_layout 4096).working_buffer_sz ≡ 4096 * 256 * 16 + 4096 * 8
unfolding register_layout round_to_page
register_layout-default = refl

env_init-IsSetting_example : IsSetting (env_init (some 5))
env_init-IsSetting_example = env_init-IsSetting (some 5)

register_layout_fits_example :
    let l = register_layout (env_init (some 5)) in
    (l.working_buffer_sz % 0x1000 ≡ 0)
    × (l.working_buffer_sz < 2 ^ 31)
    × (l.scan_map_offset % 0x1000 ≡ 0)
    × (l.max_ptrs * 2 ≤ l.scan_map_offset / 8)
    × (l.scan_map_offset + l.scan_map_sz ≡ l.working_buffer_sz)
    × (l.max_ptrs * 2 ≤ l.scan_map_sz / 8 * 512)
register_layout_fits_example = register_layout_fits (some 5)
