-- ===== src/Js.antt =====
-- The part of the language that the model needs: values and texts.
pub mod Value
pub mod Text
