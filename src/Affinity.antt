-- ===== src/Affinity.antt =====
-- prefix/affinity.go: the consistent-hash ring and the router over it. hashKey, the first eight
-- bytes of a sha256, is a parameter: `hash_key` of a key, and `vnode_hash` of the i-th virtual node
-- of a name. What is proved holds for every hash. A weight of 0 stands for one that is not positive;
-- the overload factor is a ratio of numbers; time is nanoseconds in ℕ, an argument of each call.
pub mod Ring
pub mod Router
mod Tests
