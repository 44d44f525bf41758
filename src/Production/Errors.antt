-- ===== src/Production/Errors.antt =====
-- The exception hierarchy of packages/agentforge-core/src/agentforge_core/production/exceptions.py:
-- which `except` clause catches what.
use agentforge_py.Prelude.{
  Bool, true, false, ◌&&◌, ◌||◌, List, [], ◌∷◌, ◌==◌, Error, agent_forge_error, budget_exceeded,
  guardrail_violation, module_error, provider_error, rate_limit_error, authentication_error,
  model_not_found_error, service_error, timeout_error, tool_name_invalid_error,
  capability_not_supported, a2a_call_error, a2a_auth_error, a2a_timeout, builtin, base_exception,
  subclass,
}

-- The class that a class of the hierarchy is declared to extend.
abbrev pub parent : Error → Error
parent agent_forge_error = builtin "Exception"
parent budget_exceeded = agent_forge_error
parent guardrail_violation = agent_forge_error
parent module_error = agent_forge_error
parent provider_error = agent_forge_error
parent rate_limit_error = provider_error
parent authentication_error = provider_error
parent model_not_found_error = provider_error
parent service_error = provider_error
parent timeout_error = provider_error
parent tool_name_invalid_error = provider_error
parent capability_not_supported = agent_forge_error
parent a2a_call_error = agent_forge_error
parent a2a_auth_error = a2a_call_error
parent a2a_timeout = a2a_call_error
parent (builtin name) = builtin "Exception"
parent (base_exception name) = base_exception "BaseException"
parent (subclass name extended) = extended

-- Whether two classes are one.
abbrev same_class : Error → Error → Bool
same_class agent_forge_error agent_forge_error = true
same_class budget_exceeded budget_exceeded = true
same_class guardrail_violation guardrail_violation = true
same_class module_error module_error = true
same_class provider_error provider_error = true
same_class rate_limit_error rate_limit_error = true
same_class authentication_error authentication_error = true
same_class model_not_found_error model_not_found_error = true
same_class service_error service_error = true
same_class timeout_error timeout_error = true
same_class tool_name_invalid_error tool_name_invalid_error = true
same_class capability_not_supported capability_not_supported = true
same_class a2a_call_error a2a_call_error = true
same_class a2a_auth_error a2a_auth_error = true
same_class a2a_timeout a2a_timeout = true
same_class (builtin a) (builtin b) = a == b
same_class (base_exception a) (base_exception b) = a == b
same_class (subclass a c) (subclass b d) = (a == b) && same_class c d
same_class _ _ = false

-- Whether a class that is no `subclass` is the second one or below it: three steps up reach
-- `Exception` from every such class.
abbrev is_below : Error → Error → Bool
is_below e c =
    same_class e c
    || same_class (parent e) c
    || same_class (parent (parent e)) c
    || same_class (parent (parent (parent e))) c

-- `isinstance(e, c)`
unfoldable pub is_instance : Error → Error → Bool
is_instance (subclass name extended) c =
    let rest = is_instance extended c in same_class (subclass name extended) c || rest
is_instance e c = is_below e c

-- `except (c1, c2, ...)`
unfoldable pub caught_by : List Error → Error → Bool
unfolding is_instance
caught_by [] e = false
caught_by (c ∷ cs) e = is_instance e c || caught_by cs e

-- `except Exception`
abbrev pub is_exception : Error → Bool
is_exception (base_exception name) = false
is_exception (subclass name extended) = is_exception extended
is_exception _ = true
