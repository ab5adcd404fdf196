-- ===== src/Server/Commands/Levels.antt =====
-- Which level a command of a table runs at.
use golang_collector.Base.{◌≡◌, refl, sym, ◌∙◌, List, [], ◌∷◌, All}
use golang_collector.Store.AdType.{
  AdType, any_ad, startd_ad, startd_pvt_ad, schedd_ad, master_ad, submitter_ad, collector_ad,
  negotiator_ad, license_ad, storage_ad, ckpt_srvr_ad, accounting_ad, grid_ad, had_ad, generic_ad,
}
use golang_collector.Server.Commands.{
  Perm, advertise_master, advertise_schedd, advertise_startd, daemon, negotiator, read, Command,
  command_perm, update_commands, query_commands, invalidate_commands,
}

-- That an entry is in a list.
pub data Entry {A : Type 0} : A → List A → Type 0 where
  here : (x : A) (xs : List A) → Entry x (x ∷ xs)
  there : (x y : A) (xs : List A) → Entry x xs → Entry x (y ∷ xs)

all_entries : {A : Type 0} (P : A → Type 0) (x : A) (xs : List A) → All P xs → Entry x xs → P x
all_entries P x [] h e = elim e [ ]
all_entries P x (y ∷ xs) h (here _ _) = h.0
all_entries P x (y ∷ xs) h (there _ _ _ e) = all_entries P x xs h.1 e

-- The level at which the ads of a table may be advertised.
pub advertise_level : AdType → Perm
advertise_level any_ad = daemon
advertise_level startd_ad = advertise_startd
advertise_level startd_pvt_ad = advertise_startd
advertise_level schedd_ad = advertise_schedd
advertise_level master_ad = advertise_master
advertise_level submitter_ad = advertise_schedd
advertise_level collector_ad = daemon
advertise_level negotiator_ad = negotiator
advertise_level license_ad = daemon
advertise_level storage_ad = daemon
advertise_level ckpt_srvr_ad = daemon
advertise_level accounting_ad = negotiator
advertise_level grid_ad = daemon
advertise_level had_ad = daemon
advertise_level generic_ad = daemon

update_level :
    All (λ (e : Command × AdType). command_perm e.0 ≡ advertise_level e.1) update_commands
unfolding command_perm advertise_level
update_level = (
  refl,
  (refl, (refl, (refl, (refl, (refl, (refl, (refl, (refl, (refl, (refl, (refl, tt))))))))))),
)

invalidate_level :
    All (λ (e : Command × AdType). command_perm e.0 ≡ advertise_level e.1) invalidate_commands
unfolding command_perm advertise_level
invalidate_level = (
  refl,
  (refl, (refl, (refl, (refl, (refl, (refl, (refl, (refl, (refl, (refl, (refl, tt))))))))))),
)

-- A command that updates a table and a command that invalidates it run at one level.
pub update_commands-invalidate_commands :
    (c d : Command) (t : AdType)
    → Entry (c, t) update_commands
    → Entry (d, t) invalidate_commands
    → command_perm c ≡ command_perm d
update_commands-invalidate_commands c d t u i =
    all_entries (λ (e : Command × AdType). command_perm e.0 ≡ advertise_level e.1) (c, t)
      update_commands update_level u
    ∙ sym (
        all_entries (λ (e : Command × AdType). command_perm e.0 ≡ advertise_level e.1) (d, t)
          invalidate_commands invalidate_level i)

-- The level at which the ads of a table may be queried: the private ones only by the negotiator.
pub query_level : AdType → Perm
query_level any_ad = read
query_level startd_ad = read
query_level startd_pvt_ad = negotiator
query_level schedd_ad = read
query_level master_ad = read
query_level submitter_ad = read
query_level collector_ad = read
query_level negotiator_ad = read
query_level license_ad = read
query_level storage_ad = read
query_level ckpt_srvr_ad = read
query_level accounting_ad = read
query_level grid_ad = read
query_level had_ad = read
query_level generic_ad = read

query_levels : All (λ (e : Command × AdType). command_perm e.0 ≡ query_level e.1) query_commands
unfolding command_perm query_level
query_levels = (
  refl,
  (
    refl,
    (
      refl,
      (refl, (refl, (refl, (refl, (refl, (refl, (refl, (refl, (refl, (refl, (refl, tt))))))))))),
    ),
  ),
)

-- A command that queries a table runs at the level of the negotiator where the table is that of the
-- private startd ads, and at that of a reader elsewhere.
pub query_commands-query_level :
    (c : Command) (t : AdType) → Entry (c, t) query_commands → command_perm c ≡ query_level t
query_commands-query_level c t e =
    all_entries (λ (e : Command × AdType). command_perm e.0 ≡ query_level e.1) (c, t) query_commands
      query_levels e
