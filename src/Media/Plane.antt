-- ===== src/Media/Plane.antt =====
-- The router of crates/wroomd/src/media.rs with one of its shards: every control message to the shard is
-- delivered, in order, before the next one reaches the router.
pub mod Members
pub mod Following
pub mod Delivery
pub mod Agreement
pub mod Joining
pub mod Updates
pub mod Running
pub mod Routing
use wroom.Common.{ℕ, List, [], ◌∷◌, if◌then◌else◌, ◌==◌, nat_eq}
use wroom.Common.Results.{Result, ok, ◌>>=◌}
use wroom.Media.Messages.{MediaControl}
use wroom.Media.Fanout.{Panic}
use wroom.Media.Router.{Router, Sent, to_all, to_shard, on_control}
use wroom.Media.Shards.{Shard, on_shard_control}

-- What shard `i` makes of the messages.
unfoldable pub deliver : ℕ → List Sent → Shard → Result Panic Shard
unfolding on_shard_control
deliver i [] s = ok s
deliver i (to_all message ∷ sent) s = on_shard_control (message i) s >>= deliver i sent
deliver i (to_shard j message ∷ sent) s =
    (if j == i then on_shard_control message s else ok s) >>= deliver i sent

unfoldable pub plane_step : ℕ → MediaControl → Router → Shard → Result Panic (Router × Shard)
unfolding on_control deliver
plane_step i message t s =
    let (t', sent) = on_control message t in deliver i sent s >>= λ s'. ok (t', s')

unfoldable pub plane_run : ℕ → List MediaControl → Router → Shard → Result Panic (Router × Shard)
unfolding plane_step
plane_run i [] t s = ok (t, s)
plane_run i (message ∷ messages) t s =
    plane_step i message t s >>= λ after. plane_run i messages after.0 after.1
