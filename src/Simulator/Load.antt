-- ===== src/Simulator/Load.antt =====
-- src/simulator.c: where load_file_to_memory puts the bytes of the file.
