-- ===== src/TowerDefence/Tables.antt =====
-- The tables of td_rules.py. Models, hulls, turret ranges and intervals are the plugin's business
-- and are left out: no rule of `Game` reads them.
use qlsm_extra.Base.{
  ℕ, ◌+◌, ◌-◌, ◌*◌, Option, none, some, List, [], ◌∷◌, ◌++◌, String, ◌==◌, if◌then◌else◌, replicate,
}
use text.Mathlib.Text.{◌==◌ as str_eq}

-- The keys of CREEPS.
pub data Creep : Type 0 where
  normal fast heavy shooter boss : Creep

-- The keys of TURRETS.
pub data Turret : Type 0 where
  pg rl : Turret

abbrev pub start_money : ℕ
start_money = 300

abbrev pub start_lives : ℕ
start_lives = 20

-- PAUSE_S, SPAWN_INTERVAL_S and OVER_S in milliseconds.
abbrev pub pause_ms : ℕ
pause_ms = 25_000

abbrev pub spawn_interval_ms : ℕ
spawn_interval_ms = 1_000

abbrev pub over_ms : ℕ
over_ms = 15_000

abbrev pub max_creeps : ℕ
max_creeps = 60

-- The columns of CREEPS that the rules read.
unfoldable pub base_hp : Creep → ℕ
base_hp Creep.normal = 150
base_hp Creep.fast = 80
base_hp Creep.heavy = 600
base_hp Creep.shooter = 200
base_hp Creep.boss = 3000

unfoldable pub reward : Creep → ℕ
reward Creep.normal = 5
reward Creep.fast = 5
reward Creep.heavy = 20
reward Creep.shooter = 15
reward Creep.boss = 50

unfoldable pub lives_cost : Creep → ℕ
lives_cost Creep.normal = 1
lives_cost Creep.fast = 1
lives_cost Creep.heavy = 2
lives_cost Creep.shooter = 1
lives_cost Creep.boss = 5

-- TURRETS[kind].prices
unfoldable pub prices : Turret → List ℕ
prices Turret.pg = 100 ∷ 100 ∷ 200 ∷ []
prices Turret.rl = 200 ∷ 200 ∷ 400 ∷ []

-- `kind in TURRETS`
unfoldable pub turret_named : String → Option Turret
turret_named kind =
    if str_eq kind "pg" then some Turret.pg else if str_eq kind "rl" then some Turret.rl else none

abbrev pub Groups : Type 0
Groups = List (Creep × ℕ)

unfoldable pub waves : List Groups
waves =
    ((Creep.normal, 8) ∷ [])
    ∷ ((Creep.normal, 12) ∷ [])
    ∷ ((Creep.normal, 10) ∷ (Creep.fast, 6) ∷ [])
    ∷ ((Creep.normal, 12) ∷ (Creep.heavy, 2) ∷ [])
    ∷ ((Creep.normal, 12) ∷ (Creep.boss, 1) ∷ [])
    ∷ ((Creep.fast, 14) ∷ (Creep.normal, 8) ∷ [])
    ∷ ((Creep.normal, 14) ∷ (Creep.shooter, 4) ∷ [])
    ∷ ((Creep.normal, 12) ∷ (Creep.heavy, 6) ∷ [])
    ∷ ((Creep.fast, 16) ∷ (Creep.shooter, 6) ∷ [])
    ∷ ((Creep.normal, 16) ∷ (Creep.heavy, 4) ∷ (Creep.boss, 1) ∷ [])
    ∷ ((Creep.normal, 18) ∷ (Creep.shooter, 8) ∷ [])
    ∷ ((Creep.fast, 20) ∷ (Creep.heavy, 8) ∷ [])
    ∷ ((Creep.normal, 20) ∷ (Creep.shooter, 10) ∷ [])
    ∷ ((Creep.fast, 18) ∷ (Creep.heavy, 10) ∷ (Creep.shooter, 6) ∷ [])
    ∷ ((Creep.normal, 20) ∷ (Creep.heavy, 8) ∷ (Creep.shooter, 8) ∷ (Creep.boss, 1) ∷ [])
    ∷ []

-- `[name for name, count in groups for _ in range(count)]`
unfoldable pub expand : Groups → List Creep
expand [] = []
expand ((name, count) ∷ groups) = replicate count name ++ expand groups

-- `hp_scale` in hundredths: `round` keeps two decimals, and 0.3 * k has one.
unfoldable pub hp_scale : ℕ → ℕ
hp_scale players = 100 + 30 * (players - 2)

unfoldable pub wave_bonus : ℕ → ℕ
wave_bonus wave = 100 + 20 * wave

-- BOSS_HP.get(wave, CREEPS[name].hp)
unfoldable pub boss_hp : ℕ → ℕ
unfolding base_hp
boss_hp wave =
    if wave == 5
    then 3000
    else if wave == 10
    then 5000
    else if wave == 15
    then 8000
    else base_hp Creep.boss
