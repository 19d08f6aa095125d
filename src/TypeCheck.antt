-- ===== src/TypeCheck.antt =====
-- frontend/type_check.cpp: the types of expressions, from the types of their parts. An exception is a value;
-- the parts are visited, and constant operations are reduced, before a type is computed.
pub mod Typed
pub mod Primitive
pub mod Array
pub mod Access
pub mod Function
mod Tests
