-- ===== src/QuotaManager/Keys.antt =====
-- core/resources/quotas.py: the test on keys decides their equality.
use puffinfloww.Base.{◌≡◌, refl, inl, inr, true, arith, ◌==◌, ==→eq, ==_self, Bool-cases}
use puffinfloww.ResourcePool.{ResourceType, cpu, memory, io, network, gpu, same_type}
use puffinfloww.QuotaManager.{
  QuotaScope, agent, workflow, state, user, global, same_scope, Key, same_id, same_key,
}

scope_equal : (s t : QuotaScope) → same_scope s t ≡ true → s ≡ t
unfolding same_scope
scope_equal agent agent h = refl
scope_equal workflow workflow h = refl
scope_equal state state h = refl
scope_equal user user h = refl
scope_equal global global h = refl
scope_equal _ _ h = cc

type_equal : (s t : ResourceType) → same_type s t ≡ true → s ≡ t
unfolding same_type
type_equal cpu cpu h = refl
type_equal memory memory h = refl
type_equal io io h = refl
type_equal network network h = refl
type_equal gpu gpu h = refl
type_equal _ _ h = cc

same_scope_self : (s : QuotaScope) → same_scope s s ≡ true
unfolding same_scope
same_scope_self agent = refl
same_scope_self workflow = refl
same_scope_self state = refl
same_scope_self user = refl
same_scope_self global = refl

same_type_self : (t : ResourceType) → same_type t t ≡ true
unfolding same_type
same_type_self cpu = refl
same_type_self memory = refl
same_type_self io = refl
same_type_self network = refl
same_type_self gpu = refl

pub same_key_self : (k : Key) → same_key k k ≡ true
unfolding same_key same_id
same_key_self (s, i, t) = rw (same_scope_self s, ==_self i, same_type_self t)

pub same_key→eq : (j k : Key) → same_key j k ≡ true → j ≡ k
unfolding same_key same_id
same_key→eq (s, i, t) (s', i', t') h = elim (Bool-cases (same_scope s s')) [
  | inr other ↦ ground arith
  | inl scopes ↦ elim (Bool-cases (i == i')) [
    | inr other ↦ ground arith
    | inl names ↦
        let types : same_type t t' ≡ true = ground arith in
        let e1 = scope_equal s s' scopes in
        let e2 = ==→eq i i' names in let e3 = type_equal t t' types in cc
  ]
]

pub same_id_self : (k : Key) → same_id k k ≡ true
unfolding same_id
same_id_self (s, i, t) = rw (same_scope_self s, ==_self i)
