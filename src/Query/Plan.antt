-- ===== src/Query/Plan.antt =====
-- The requests, plans and limits of internal/query/executor.go.
use pivot.Common.{
  ℕ, ℤ, pos, pos_part, ltb_ℤ, leb_ℤ, beq_ℤ, ◌/◌, ◌&&◌, ◌||◌, Text, ltb, nat_beq, nat_eq, ◌==◌,
  trim_space, if◌then◌else◌, Result, ok, err,
}
use pivot.Tenant.{Uuid, uuid_nil, ScopeError}
use pivot.Authz.Model.{is_empty}
use pivot.Authz.Check.{EnforceError}
use pivot.Query.Stream.{SourceError}

-- The columns of a connection that the pipeline reads; the rest only goes into its configuration.
pub record Connection : Type 0 where
  pub id : Uuid
  pub slug : Text
  pub max_rows : ℤ
  pub query_timeout_seconds : ℤ

pub record Request : Type 0 where
  pub connection_id : Uuid
  pub sql : Text
  pub max_rows : ℤ

pub record Plan : Type 0 where
  pub sql : Text
  pub connection : Connection
  pub max_rows : ℕ

pub data QueryError : Type 0 where
  no_scope : ScopeError → QueryError
  no_connection empty_sql : QueryError
  not_permitted : EnforceError → QueryError
  not_resolved not_admitted cannot_open not_recorded : Text → QueryError
  not_executed : SourceError → QueryError

unfoldable pub parse : Request → Result QueryError Text
parse req =
    if req.connection_id == uuid_nil
    then err no_connection
    else (let statement = trim_space req.sql in
        if is_empty statement then err empty_sql else ok statement)

abbrev pub default_max_rows : ℕ
default_max_rows = 100_000

-- The rows a plan asks for, of the connection's own limit and the request's, which are signed. What
-- is left is above zero, so that a plan has it as a natural number.
unfoldable pub limit_rows : ℤ → ℤ → ℕ
limit_rows own asked =
    let rows =
      if ltb_ℤ (pos 0) asked && (beq_ℤ own (pos 0) || ltb_ℤ asked own) then asked else own in
    if leb_ℤ rows (pos 0) then default_max_rows else pos_part rows

abbrev pub nanoseconds : ℕ
nanoseconds = 1_000_000_000

-- In seconds; the ceiling is in nanoseconds, and `WithQueryTimeout` lets none in that is below zero.
unfoldable pub effective_timeout : ℕ → ℤ → ℤ
effective_timeout query_timeout own =
    let whole = query_timeout / nanoseconds in
    let ceiling = if ltb 0 query_timeout && nat_beq whole 0 then 1 else whole in
    if nat_beq ceiling 0
    then own
    else if beq_ℤ own (pos 0) || ltb_ℤ (pos ceiling) own
    then pos ceiling
    else own
