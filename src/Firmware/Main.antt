-- ===== src/Firmware/Main.antt =====
-- The main loop of examples/embedded/src/main.rs, behind the set-up of the board.
use cyphal_rs.Base.{
  ℕ, ◌+◌, Bool, not, Option, none, some, List, [], ◌∷◌, if◌then◌else◌, ltb, Result, ok, err, panic,
}
use cyphal_rs.Clock.{Clock}
use cyphal_rs.Firmware.Api.{Hal}
use cyphal_rs.Uavcan.{Uavcan}
use cyphal_rs.Firmware.Publish.{publish}

-- "Hello!".
abbrev pub hello : List ℕ
hello = 72 ∷ (101 ∷ (108 ∷ (108 ∷ (111 ∷ (33 ∷ [])))))

-- The variables of `main`, with a `message` of nominal priority on port 100 and the period of 1000 ms
-- in the unit of the clock.
module _ ⦃clock : Clock⦄ ⦃u : Uavcan⦄ ⦃hal : Hal⦄
    (message : clock.Instant → ℕ → List ℕ → u.Transfer) (period : clock.Generic) where
  pub record Variables : Type 0 where
    pub node : u.Node
    pub can : hal.FdCan
    pub transfer_id : ℕ
    pub last_published : clock.Instant
    pub led : Bool

  -- The body of the `if`. `transfer_id` is a `u8`, and its addition is checked for overflow.
  unfoldable pub publish_hello :
      {E : Type 0} → ℕ → ℕ → clock.Instant → clock.Instant → Variables → Option (Result E Variables)
  publish_hello fuel blocking stamp done v =
      let transfer = message stamp v.transfer_id hello in
      if ltb 255 (v.transfer_id + 1)
      then some panic
      else elim (publish fuel blocking v.node transfer v.can) [
        | none ↦ none
        | some panic ↦ some panic
        | some (err e) ↦ some (err e)
        | some (ok (node, can)) ↦ some (
            ok (record v {
              node = node;
              can = can;
              transfer_id = v.transfer_id + 1;
              last_published = done;
              led = not (not v.led);
            }))
      ]

  -- A turn of the loop, in which the clock reads `now`, and `stamp` and `done` if there is something
  -- to publish.
  unfoldable pub turn :
      {E : Type 0}
      → ℕ
      → ℕ
      → clock.Instant
      → clock.Instant
      → clock.Instant
      → Variables
      → Option (Result E Variables)
  turn fuel blocking now stamp done v = elim (clock.since now v.last_published) [
    | none ↦ some panic
    | some elapsed ↦
        if clock.longer elapsed period
        then publish_hello fuel blocking stamp done v
        else some (ok v)
  ]
