-- ===== src/Authz.antt =====
-- Authorization: the code under internal/authz. The vocabulary and the role table stand in
-- `Model`, the graph walk in `Graph`, the decision cache in `Cache`.
pub mod Model
pub mod Check
pub mod Graph
pub mod Cache
