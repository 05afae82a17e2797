-- ===== src/Tests/Rpc.antt =====
-- The methods of the RPC at a concrete handle and disk.
use lumenyx.Prelude.{Bool, true, false, none, some, ◌≡◌, refl, if◌then◌else◌}
use lumenyx.Node.PoolMode.{Disk}
use lumenyx.Node.Rpc.{Watch, get_pool_mode, set_pool_mode}
use lumenyx.Node.Rpc.Mode.{IsWatch, takes, IsAnswered, set_pool_mode_lem}

-- A channel as its value and whether there is a receiver.
abbrev pair_watch : Watch (Bool × Bool)
pair_watch = record {
  channel = λ v. (v, true);
  send = λ v w. (if w.1 then v else w.0, w.1);
  borrow = λ w. w.0;
}

abbrev has_receiver : Bool × Bool → Bool
has_receiver w = w.1

pair_watch-IsWatch : IsWatch pair_watch has_receiver
pair_watch-IsWatch = record {
  borrow_channel = λ v. refl;
  channel_has = λ v. refl;
  send_has = λ v w. refl;
  kept = λ v w h. rw h refl;
  dropped = λ v w h. rw h refl;
}

abbrev a_disk : Disk
a_disk = record {
  known = true;
  writable = true;
  readable = true;
  room = 100;
  pool_mode_conf = none;
}

set_pool_mode_lem_example :
    let (result, handle', disk') = set_pool_mode pair_watch (some true) (false, true) a_disk in
    (get_pool_mode pair_watch handle' ≡ true)
    × IsAnswered true false true (get_pool_mode pair_watch handle') result disk'
unfolding takes
set_pool_mode_lem_example =
    set_pool_mode_lem pair_watch has_receiver false true (false, true) a_disk pair_watch-IsWatch
      refl
