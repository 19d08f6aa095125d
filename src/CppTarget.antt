-- ===== src/CppTarget.antt =====
-- cpp/cpp_target.cpp: the buffers of the generated program.
pub mod Buffer
pub mod Stack
