-- ===== src/Examples.antt =====
-- Concrete states of the program, and a use of each theorem.
mod Threads
mod Bitmap
mod Web
mod Warmup
mod Fs
mod Directory
