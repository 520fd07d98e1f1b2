-- ===== src/Data/AllLatest.antt =====
-- data/all_latest.h for two channels, and `DataVisitor<M0, M1>::TryFetch` on it. The callback on the
-- first channel's ring works on the second channel's ring and on the fused one.
pub mod Stream
use cmw.Prelude.{ℕ, ◌-◌, Bool, true, false, List, [], ◌∷◌, Option, none, some, add64, sub64}
use cmw.Data.CacheBuffer.{CacheBuffer, init, fill, set_fusion_callback}
use cmw.Data.ChannelBuffer.{Outcome, miss, hit, fault, fetch, latest}

-- What the callback reaches. Neither ring has a callback of its own.
pub record Rings (M0 M1 : Type 0) : Type 0 where
  pub m1 : CacheBuffer M1 (Unit {0})
  pub fusion : CacheBuffer (M0 × M1) (Unit {0})

pub record AllLatest (M0 M1 : Type 0) : Type 0 where
  pub m0 : CacheBuffer M0 (Rings M0 M1)
  pub rings : Rings M0 M1

module _ {M0 M1 : Type 0} where
  -- The callback. `none` is a read out of range in `Latest`.
  pub on_m0 : M0 → Rings M0 M1 → Rings M0 M1
  on_m0 v s = elim (latest s.m1) [
    | hit m1 ↦ record s { fusion = (fill s.fusion (v, m1) tt).0 }
    | miss ↦ s
    | fault ↦ s
  ]

  -- The constructor, over the rings of its two channels. `null` fills the cells of the fused ring.
  pub construct :
      CacheBuffer M0 (Rings M0 M1) → CacheBuffer M1 (Unit {0}) → M0 × M1 → AllLatest M0 M1
  unfolding on_m0
  construct buffer_0 buffer_1 null = record {
    m0 = set_fusion_callback buffer_0 on_m0;
    rings = record { m1 = buffer_1; fusion = init (sub64 buffer_0.capacity 1) null };
  }

  -- A message of either channel, as `DataDispatcher` fills it in.
  pub dispatch_m0 : AllLatest M0 M1 → M0 → AllLatest M0 M1
  dispatch_m0 a v = let (b, s) = fill a.m0 v a.rings in record { m0 = b; rings = s }

  pub dispatch_m1 : AllLatest M0 M1 → M1 → AllLatest M0 M1
  dispatch_m1 a v = record a { rings = record (a.rings) { m1 = (fill a.rings.m1 v tt).0 } }

  -- `Fusion`, with the new value of `*index`
  pub fusion_fetch : AllLatest M0 M1 → ℕ → Outcome (M0 × M1) × ℕ
  fusion_fetch a index = fetch a.rings.fusion index
