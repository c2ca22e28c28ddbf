-- ===== src/Float.antt =====
-- Python's `float`, which the program computes prices, risks and profits with, as an interface:
-- a type with the operations that the code calls, and the order laws of IEEE comparisons that the
-- proofs rely on. `Float/Fixed.antt` has a value that meets them.
pub mod Order
pub mod Fixed
pub use Order.*
