-- ===== src/Server/Commands.antt =====
-- server/commands.go: the collector's commands, their authorization levels, and the tables that they
-- work on. A command is its name; one that the table of commands does not have is `unlisted`.
pub mod Levels
use golang_collector.Base.{List, [], ◌∷◌}
use golang_collector.Store.AdType.{
  AdType, accounting_ad, any_ad, ckpt_srvr_ad, collector_ad, grid_ad, had_ad, license_ad, master_ad,
  negotiator_ad, schedd_ad, startd_ad, startd_pvt_ad, storage_ad, submitter_ad,
}

pub data Perm : Type 0 where
  read : Perm
  negotiator : Perm
  advertise_startd : Perm
  advertise_schedd : Perm
  advertise_master : Perm
  daemon : Perm

pub data Command : Type 0 where
  query_startd_ads : Command
  query_startd_pvt_ads : Command
  query_schedd_ads : Command
  query_master_ads : Command
  query_ckpt_srvr_ads : Command
  query_submittor_ads : Command
  query_license_ads : Command
  query_collector_ads : Command
  query_storage_ads : Command
  query_accounting_ads : Command
  query_negotiator_ads : Command
  query_had_ads : Command
  query_any_ads : Command
  query_grid_ads : Command
  query_multiple_ads : Command
  query_multiple_pvt_ads : Command
  invalidate_startd_ads : Command
  invalidate_schedd_ads : Command
  invalidate_master_ads : Command
  invalidate_ckpt_srvr_ads : Command
  invalidate_submittor_ads : Command
  invalidate_license_ads : Command
  invalidate_collector_ads : Command
  invalidate_storage_ads : Command
  invalidate_accounting_ads : Command
  invalidate_negotiator_ads : Command
  invalidate_had_ads : Command
  invalidate_grid_ads : Command
  update_startd_ad : Command
  update_startd_ad_with_ack : Command
  update_schedd_ad : Command
  update_submittor_ad : Command
  update_license_ad : Command
  update_master_ad : Command
  update_ckpt_srvr_ad : Command
  update_collector_ad : Command
  update_storage_ad : Command
  update_negotiator_ad : Command
  update_had_ad : Command
  update_grid_ad : Command
  update_accounting_ad : Command
  unlisted : Command

unfoldable pub command_perm : Command → Perm
command_perm query_startd_ads = read
command_perm query_startd_pvt_ads = negotiator
command_perm query_schedd_ads = read
command_perm query_master_ads = read
command_perm query_ckpt_srvr_ads = read
command_perm query_submittor_ads = read
command_perm query_license_ads = read
command_perm query_collector_ads = read
command_perm query_storage_ads = read
command_perm query_accounting_ads = read
command_perm query_negotiator_ads = read
command_perm query_had_ads = read
command_perm query_any_ads = read
command_perm query_grid_ads = read
command_perm query_multiple_ads = read
command_perm query_multiple_pvt_ads = negotiator
command_perm invalidate_startd_ads = advertise_startd
command_perm invalidate_schedd_ads = advertise_schedd
command_perm invalidate_master_ads = advertise_master
command_perm invalidate_ckpt_srvr_ads = daemon
command_perm invalidate_submittor_ads = advertise_schedd
command_perm invalidate_license_ads = daemon
command_perm invalidate_collector_ads = daemon
command_perm invalidate_storage_ads = daemon
command_perm invalidate_accounting_ads = negotiator
command_perm invalidate_negotiator_ads = negotiator
command_perm invalidate_had_ads = daemon
command_perm invalidate_grid_ads = daemon
command_perm update_startd_ad = advertise_startd
command_perm update_startd_ad_with_ack = advertise_startd
command_perm update_schedd_ad = advertise_schedd
command_perm update_submittor_ad = advertise_schedd
command_perm update_license_ad = daemon
command_perm update_master_ad = advertise_master
command_perm update_ckpt_srvr_ad = daemon
command_perm update_collector_ad = daemon
command_perm update_storage_ad = daemon
command_perm update_negotiator_ad = negotiator
command_perm update_had_ad = daemon
command_perm update_grid_ad = daemon
command_perm update_accounting_ad = negotiator
command_perm unlisted = read

abbrev pub update_commands : List (Command × AdType)
update_commands =
    (update_startd_ad, startd_ad)
    ∷ (update_schedd_ad, schedd_ad)
    ∷ (update_master_ad, master_ad)
    ∷ (update_submittor_ad, submitter_ad)
    ∷ (update_collector_ad, collector_ad)
    ∷ (update_negotiator_ad, negotiator_ad)
    ∷ (update_license_ad, license_ad)
    ∷ (update_storage_ad, storage_ad)
    ∷ (update_ckpt_srvr_ad, ckpt_srvr_ad)
    ∷ (update_accounting_ad, accounting_ad)
    ∷ (update_grid_ad, grid_ad)
    ∷ (update_had_ad, had_ad)
    ∷ []

abbrev pub query_commands : List (Command × AdType)
query_commands =
    (query_startd_ads, startd_ad)
    ∷ (query_startd_pvt_ads, startd_pvt_ad)
    ∷ (query_schedd_ads, schedd_ad)
    ∷ (query_master_ads, master_ad)
    ∷ (query_submittor_ads, submitter_ad)
    ∷ (query_collector_ads, collector_ad)
    ∷ (query_negotiator_ads, negotiator_ad)
    ∷ (query_license_ads, license_ad)
    ∷ (query_storage_ads, storage_ad)
    ∷ (query_ckpt_srvr_ads, ckpt_srvr_ad)
    ∷ (query_accounting_ads, accounting_ad)
    ∷ (query_grid_ads, grid_ad)
    ∷ (query_had_ads, had_ad)
    ∷ (query_any_ads, any_ad)
    ∷ []

abbrev pub invalidate_commands : List (Command × AdType)
invalidate_commands =
    (invalidate_startd_ads, startd_ad)
    ∷ (invalidate_schedd_ads, schedd_ad)
    ∷ (invalidate_master_ads, master_ad)
    ∷ (invalidate_submittor_ads, submitter_ad)
    ∷ (invalidate_collector_ads, collector_ad)
    ∷ (invalidate_negotiator_ads, negotiator_ad)
    ∷ (invalidate_license_ads, license_ad)
    ∷ (invalidate_storage_ads, storage_ad)
    ∷ (invalidate_ckpt_srvr_ads, ckpt_srvr_ad)
    ∷ (invalidate_accounting_ads, accounting_ad)
    ∷ (invalidate_grid_ads, grid_ad)
    ∷ (invalidate_had_ads, had_ad)
    ∷ []
