-- ===== src/Relay/Eth2Near/Batch.antt =====
-- The size of a batch.
use rainbow_bridge.Prelude.{
  ℕ, zero, suc, ◌*◌, ◌/◌, ◌≤◌, ◌≡◌, refl, some, arith, ◌==◌, Bool-cases, inl, inr, length,
}
use rainbow_bridge.Prelude.Int.{
  ℤ, pos, ◌+ℤ◌, ◌-ℤ◌, ◌≤ℤ◌, ◌<ℤ◌, ltb_ℤ, pos_part, parts_disjoint, int_laws, ltb_ℤ→le, min-cases,
  min-le_left,
}
use native.Mathlib.Nat.{mul-le-mul_right, div-mul-le_self}
use rainbow_bridge.Prelude.Js.{Result, ok}
use rainbow_bridge.Relay.Eth2Near.{
  Relay, initialize, max_gas_per_block, end_block, numbers_from, numbers_between,
}

pub length-numbers_from : (first : ℤ) (n : ℕ) → length (numbers_from first n) ≡ n
unfolding numbers_from
length-numbers_from first zero = refl
length-numbers_from first (suc n) = omega (arith, length-numbers_from (first +ℤ pos 1) n)

pub end_block-cases :
    (total client chain : ℤ)
    → pos 1 ≤ℤ total
    → client <ℤ chain
    → (client <ℤ end_block total client chain)
      × (end_block total client chain ≤ℤ chain)
      × (end_block total client chain ≤ℤ client +ℤ total)
unfolding end_block
end_block-cases total client chain one below = elim (Bool-cases (ltb_ℤ client (pos 5))) [
  | inl early ↦ rw early (omega int_laws, omega int_laws, omega int_laws)
  | inr late ↦ rw late (elim (min-cases (client +ℤ total) chain) [
    | inl e ↦ rw e (omega int_laws, omega int_laws, rw e at (min-le_left (client +ℤ total) chain))
    | inr (e, l) ↦ rw e (omega int_laws, omega int_laws, omega int_laws)
  ])
]

within_limit :
    (gas : ℕ) (total : ℤ)
    → total ≤ℤ pos (max_gas_per_block / gas)
    → pos_part total * gas ≤ max_gas_per_block
within_limit gas total h =
    let small : pos_part total ≤ max_gas_per_block / gas = omega (int_laws, parts_disjoint total) in
    omega (arith, mul-le-mul_right gas small, div-mul-le_self max_gas_per_block gas)

relay_eq : (a b : Relay) → Path (Result Relay) (ok a) (ok b) → b ≡ a
relay_eq a b h = cc

initialize-limit :
    (gas : ℕ) (total : ℤ) (relay : Relay)
    → initialize gas (some total) ≡ ok relay
    → (relay ≡ record { gas_per_transaction = gas; total_submit_block = total })
      × (total ≤ℤ pos (max_gas_per_block / gas))
unfolding initialize
initialize-limit gas total relay h = elim (Bool-cases (gas == 0)) [
  | inl z ↦ cc (rw z at h)
  | inr n ↦ elim (Bool-cases (ltb_ℤ (pos (max_gas_per_block / gas)) total)) [
    | inl big ↦ cc (rw (n, big) at h)
    | inr small ↦ (
      relay_eq _ relay (rw (n, small) at h),
      ltb_ℤ→le (pos (max_gas_per_block / gas)) total small,
    )
  ]
]

-- Where `initialize` accepts a number of blocks, at least one, and the client is behind the chain, the
-- batch of a round has a block, none of its blocks lies above the chain's, and its gas is within a
-- block's on NEAR.
pub batch_fits :
    (gas : ℕ) (total client chain : ℤ) (relay : Relay)
    → initialize gas (some total) ≡ ok relay
    → pos 1 ≤ℤ total
    → client <ℤ chain
    → (1 ≤ length (numbers_between client (end_block relay.total_submit_block client chain)))
      × (end_block relay.total_submit_block client chain ≤ℤ chain)
      × (length (numbers_between client (end_block relay.total_submit_block client chain))
            * relay.gas_per_transaction
          ≤ max_gas_per_block)
batch_fits gas total client chain relay h one below =
    let (e, small) = initialize-limit gas total relay h in
    let last : ℤ = end_block total client chain in
    let (above, inside, few) = end_block-cases total client chain one below in
    let count : length (numbers_between client last) ≡ pos_part (last -ℤ client) =
      length-numbers_from (client +ℤ pos 1) (pos_part (last -ℤ client)) in
    let most : pos_part (last -ℤ client) ≤ pos_part total =
      omega (int_laws, parts_disjoint (last -ℤ client), parts_disjoint total) in
    rw (e, count)
      (
        omega (int_laws, parts_disjoint (last -ℤ client)),
        inside,
        omega (arith, within_limit gas total small, mul-le-mul_right gas most),
      )
